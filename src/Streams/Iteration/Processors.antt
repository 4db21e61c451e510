-- ===== src/Streams/Iteration/Processors.antt =====
-- How the processors of a stream end, one after the other.
use mathlib.Core.Path.{subst}
use faust.Common.{◌≡◌, refl, List, [], ◌∷◌, Option}
use faust.Streams.Iteration.{Processed, returns, skips, stops, raises, then_process, process}
use faust.Streams.Iteration.Given.{
  Ending, gives, drops, ends, Runs, unchanged, returning, skipping, raising, stopping,
}

-- What the result of the processors stands for
abbrev pub ending_of : {V : Type 0} → Processed V → Ending V
ending_of (returns value) = gives value
ending_of skips = drops
ending_of stops = ends
ending_of raises = drops

first_of :
    {V : Type 0} (p : Option V → Processed V) (ps : List (Option V → Processed V))
    (value : Option V)
    → ((next : Option V) → Runs ps next (ending_of (process ps next)))
    → (r : Processed V) → p value ≡ r
    → Runs (p ∷ ps) value (ending_of (then_process (process ps) r))
first_of p ps value later (returns next) h = returning h (later next)
first_of p ps value later skips h = skipping h
first_of p ps value later stops h = stopping h
first_of p ps value later raises h = raising h

process-Runs :
    {V : Type 0} (ps : List (Option V → Processed V)) (value : Option V)
    → Runs ps value (ending_of (process ps value))
unfolding process
process-Runs [] value = unchanged
process-Runs (p ∷ ps) value = first_of p ps value (process-Runs ps) (p value) refl

pub process-Runs_of :
    {V : Type 0} (processors : List (Option V → Processed V)) (value : Option V) {r : Processed V}
    → process processors value ≡ r
    → Runs processors value (ending_of r)
process-Runs_of processors value h =
    subst (λ r. Runs processors value (ending_of r)) h (process-Runs processors value)
