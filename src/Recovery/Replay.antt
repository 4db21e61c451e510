-- ===== src/Recovery/Replay.antt =====
-- A run of the loop of `_slurp_changelogs` over the events of known partitions, against what is
-- expected of it: each table is given its events in order, less those at or below an offset that
-- its partition has seen.
use mathlib.Core.List.{append-nil, append_assoc}
use mathlib.Core.Path.{fun_ext}
use faust.Common.{
  ℕ, ◌≡◌, refl, sym, ap, ◌∙◌, Bool, false, ◌&&◌, List, [], ◌∷◌, ◌++◌, Option, none, some, nat_eq,
  nat_beq, All,
}
use faust.Common.Int.{ℤ}
use faust.Common.Dict.{get}
use faust.Types.{Tp, tp_eq}
use faust.Recovery.{Event, Tables, Recovery, get_offset}
use faust.Recovery.Slurp.{Source, offsets_of, is_unseen, source_of, slurp}
use faust.Recovery.Buffers.{IsDistinct}
use faust.Recovery.Journal.{journal, one_event, slurp-journal}
use faust.Recovery.Seen.{advance, seen_offset, HasParts, source_of_lem, here_lem, slurp-seen_offset}

abbrev pub is_table : Option ℕ → ℕ → Bool
is_table none q = false
is_table (some table) q = nat_beq table q

module _ {V : Type 0} where
  -- The rounds of the loop, on events that arrive one after the other
  unfoldable pub slurp_each :
      Tables → Recovery V → Option Source → List (Event V) → Recovery V × Option Source
  slurp_each tables r last [] = (r, last)
  slurp_each tables r last (e ∷ events) =
      let x = slurp tables r last e in slurp_each tables x.0 x.1 events

  -- The events that a table should be given
  unfoldable pub expected : (Tp → Option ℕ) → ℕ → (Tp → Option ℤ) → List (Event V) → List (Event V)
  expected owner q offsets [] = []
  expected owner q offsets (e ∷ events) =
      one_event (is_unseen (offsets e.tp) e.offset && is_table (owner e.tp) q) e
      ++ expected owner q (advance offsets e) events

  -- The partition is an active or a standby one, and belongs to a table.
  abbrev pub IsKnown : Recovery V → Tp → Type 0
  IsKnown r tp = (s : Source) × (source_of r tp ≡ some (s.is_active, some s.table))

  source_of-HasParts : (a b : Recovery V) (tp : Tp) → HasParts a b → source_of a tp ≡ source_of b tp
  unfolding source_of
  source_of-HasParts a b tp h = rw (h.0, h.1, h.2) refl

  All-IsKnown :
      (a b : Recovery V) (events : List (Event V))
      → HasParts a b
      → All (λ e. IsKnown b e.tp) events
      → All (λ e. IsKnown a e.tp) events
  All-IsKnown a b [] h k = tt
  All-IsKnown a b (e ∷ events) h k =
      ((k.0.0, source_of-HasParts a b e.tp h ∙ k.0.1), All-IsKnown a b events h k.1)

  -- Where no table has two buffers and every event is of a known partition: after the loop went
  -- over the events, a table has been given (applied or in its buffer) what it had been given
  -- before, followed by the events expected of it: those of its partitions, in order, whose offset
  -- is above the last one that the partition has seen up to then (or there is none).
  pub slurp_each-expected :
      (tables : Tables) (r : Recovery V) (last : Option Source) (events : List (Event V)) (q : ℕ)
      → IsDistinct r.buffers
      → All (λ e. IsKnown r e.tp) events
      → journal (slurp_each tables r last events).0 q
        ≡ journal r q ++ expected (get r.tp_to_table) q (seen_offset r) events
  unfolding slurp_each expected
  slurp_each-expected tables r last [] q distinct known = sym (append-nil (journal r q))
  slurp_each-expected tables r last (e ∷ events) q distinct known =
      let (s, owned) = known.0 in
      let x = slurp tables r last e in
      let round = slurp-journal tables r last e s.is_active s.table q distinct owned in
      let after = slurp-seen_offset tables r last e s owned in
      let rest =
        slurp_each-expected tables x.0 x.1 events q round.1
          (All-IsKnown x.0 r events after.0 known.1) in
      let src = source_of_lem r e.tp s.is_active s.table owned in
      let first : one_event
            (is_unseen (get_offset (offsets_of r s) e.tp) e.offset && nat_beq s.table q) e
          ≡ one_event
              (is_unseen (seen_offset r e.tp) e.offset && is_table (get r.tp_to_table e.tp) q) e =
        ap (λ o. one_event (is_unseen o e.offset && nat_beq s.table q) e) (here_lem r s e.tp src.0)
        ∙ ap (λ t. one_event (is_unseen (seen_offset r e.tp) e.offset && is_table t q) e)
            (sym src.1) in
      let later : expected (get x.0.tp_to_table) q (seen_offset x.0) events
          ≡ expected (get r.tp_to_table) q (advance (seen_offset r) e) events =
        ap (λ d. expected (get d) q (seen_offset x.0) events) after.0.2
        ∙ ap (λ o. expected (get r.tp_to_table) q o events) (fun_ext after.1) in
      rest
      ∙ ap (λ ys. journal x.0 q ++ ys) later
      ∙ ap (λ xs. xs ++ expected (get r.tp_to_table) q (advance (seen_offset r) e) events)
          (round.0 ∙ ap (λ ys. journal r q ++ ys) first)
      ∙ append_assoc (journal r q)
          (one_event
            (is_unseen (seen_offset r e.tp) e.offset && is_table (get r.tp_to_table e.tp) q) e)
          (expected (get r.tp_to_table) q (advance (seen_offset r) e) events)
