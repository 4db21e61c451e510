-- ===== src/Streams/Iteration/Given.antt =====
-- What an iteration over a stream is to give, as relations, with how its messages are acknowledged.
use faust.Common.{
  ℕ, ◌-◌, ◌≡◌, ◌≢◌, ◌⊎◌, true, false, List, [], ◌∷◌, Option, none, some, if◌then◌else◌, ◌==◌,
  nat_eq, nat_beq,
}
use faust.Types.{Message}
use faust.Streams.Iteration.{
  Event, Item, event, plain, Processed, returns, skips, stops, raises, App,
}

-- The message after one acknowledgement
abbrev pub after_ack : Message → Message
after_ack m =
    if m.acked
    then m
    else record m { refcount = m.refcount - 1; acked = nat_beq (m.refcount - 1) 0 }

-- Message `i`, after acknowledgements of the messages with these numbers, one after the other
abbrev pub after_acks : List ℕ → ℕ → Message → Message
after_acks [] i m = m
after_acks (x ∷ acks) i m = after_acks acks i (if x == i then after_ack m else m)

-- How the processors end for a value
pub data Ending (V : Type 0) : Type 0 where
  gives : Option V → Ending V
  drops ends : Ending V

module _ {V : Type 0} where
  -- Each processor in turn has what the one before it returned. One that raises `Skip`, or an
  -- exception other than `StopAsyncIteration`, drops the value; `StopAsyncIteration` ends all.
  pub data Runs : List (Option V → Processed V) → Option V → Ending V → Type 0 where
    unchanged : {value : Option V} → Runs [] value (gives value)
    returning :
        {p : Option V → Processed V} {ps : List (Option V → Processed V)} {value next : Option V}
        {ending : Ending V}
        → p value ≡ returns next
        → Runs ps next ending
        → Runs (p ∷ ps) value ending
    skipping :
        {p : Option V → Processed V} {ps : List (Option V → Processed V)} {value : Option V}
        → p value ≡ skips
        → Runs (p ∷ ps) value drops
    raising :
        {p : Option V → Processed V} {ps : List (Option V → Processed V)} {value : Option V}
        → p value ≡ raises
        → Runs (p ∷ ps) value drops
    stopping :
        {p : Option V → Processed V} {ps : List (Option V → Processed V)} {value : Option V}
        → p value ≡ stops
        → Runs (p ∷ ps) value ends

  -- The event is to be left out.
  abbrev pub IsStale : App → Event V → Type 0
  IsStale app e = (app.flow_is_active ≡ false) ⊎ (e.generation_id ≢ app.consumer_generation_id)

  abbrev pub IsTimely : App → Event V → Type 0
  IsTimely app e = (app.flow_is_active ≡ true) × (e.generation_id ≡ app.consumer_generation_id)

  -- What comes from the channel, what the user is given, and which messages are acknowledged, in
  -- order
  pub data Gives (processors : List (Option V → Processed V))
      : List (App × Item V) → List (Option V) → List ℕ → Type 0 where
    nothing : Gives processors [] [] []
    stale :
        {app : App} {e : Event V} {items : List (App × Item V)} {values : List (Option V)}
        {acks : List ℕ}
        → IsStale app e
        → Gives processors items values acks
        → Gives processors ((app, event e) ∷ items) values (e.ident ∷ acks)
    given :
        {app : App} {e : Event V} {items : List (App × Item V)} {values : List (Option V)}
        {acks : List ℕ} {value : Option V}
        → IsTimely app e
        → Runs processors e.value (gives value)
        → app.enable_acks ≡ true
        → Gives processors items values acks
        → Gives processors ((app, event e) ∷ items) (value ∷ values) (e.ident ∷ acks)
    given_unacked :
        {app : App} {e : Event V} {items : List (App × Item V)} {values : List (Option V)}
        {acks : List ℕ} {value : Option V}
        → IsTimely app e
        → Runs processors e.value (gives value)
        → app.enable_acks ≡ false
        → Gives processors items values acks
        → Gives processors ((app, event e) ∷ items) (value ∷ values) acks
    dropped :
        {app : App} {e : Event V} {items : List (App × Item V)} {values : List (Option V)}
        {acks : List ℕ}
        → IsTimely app e
        → Runs processors e.value drops
        → Gives processors items values acks
        → Gives processors ((app, event e) ∷ items) values (e.ident ∷ acks)
    ended :
        {app : App} {e : Event V} {items : List (App × Item V)}
        → IsTimely app e
        → Runs processors e.value ends
        → Gives processors ((app, event e) ∷ items) [] []
    plain_given :
        {app : App} {v : Option V} {w : V} {items : List (App × Item V)} {values : List (Option V)}
        {acks : List ℕ}
        → Runs processors v (gives (some w))
        → Gives processors items values acks
        → Gives processors ((app, plain v) ∷ items) (some w ∷ values) acks
    plain_none :
        {app : App} {v : Option V} {items : List (App × Item V)} {values : List (Option V)}
        {acks : List ℕ}
        → Runs processors v (gives none)
        → Gives processors items values acks
        → Gives processors ((app, plain v) ∷ items) values acks
    plain_dropped :
        {app : App} {v : Option V} {items : List (App × Item V)} {values : List (Option V)}
        {acks : List ℕ}
        → Runs processors v drops
        → Gives processors items values acks
        → Gives processors ((app, plain v) ∷ items) values acks
    plain_ended :
        {app : App} {v : Option V} {items : List (App × Item V)}
        → Runs processors v ends
        → Gives processors ((app, plain v) ∷ items) [] []
