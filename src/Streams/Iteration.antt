-- ===== src/Streams/Iteration.antt =====
-- `_py_aiter` of faust/streams.py: the values that a stream gives, and the events that it
-- acknowledges. Processors, and the merge after them, are functions; sensors and tracing are left
-- out. `None` is `none`. The list of values ends where the stream is stopped, where an exception was
-- thrown into the channel, and after the value at which the user leaves the iteration.
pub mod Given
pub mod Processors
pub mod Messages
pub mod Acks
pub mod Stale
use faust.Common.{
  ℕ, suc, ◌+◌, ◌≡◌, Bool, true, false, not, ◌&&◌, ◌||◌, List, [], ◌∷◌, Option, none, some, String,
  if◌then◌else◌, ◌==◌, nat_eq, nat_beq, contains, include,
}
use faust.Types.{Message}
use faust.Consumer.{Consumer, track_message}
use faust.Consumer.Intervals.{IntervalTree}
use faust.Conductor.Acks.{event_ack}

-- An event refers to its message, which other streams share, by its number.
pub record Event (V : Type 0) : Type 0 where
  pub ident : ℕ
  pub generation_id : ℕ
  pub value : Option V

-- What comes from the channel
pub data Item (V : Type 0) : Type 0 where
  event : Event V → Item V
  plain : Option V → Item V

-- What a processor does: it returns a value, raises `Skip`, raises `StopAsyncIteration`, or raises
-- another exception.
pub data Processed (V : Type 0) : Type 0 where
  returns : Option V → Processed V
  skips stops raises : Processed V

-- What becomes of a value: the user is given it, it is the skipped value, the iteration ends, or the
-- stream goes on to the next without it.
pub data Fate (V : Type 0) : Type 0 where
  yields : Option V → Fate V
  skipped finished again : Fate V

-- What the stream sees of the app when a value comes: whether flow control is active, the
-- generation, and whether the stream's acks are enabled.
pub record App : Type 0 where
  pub flow_is_active : Bool
  pub consumer_generation_id : ℕ
  pub enable_acks : Bool

abbrev pub then_process : {V : Type 0} → (Option V → Processed V) → Processed V → Processed V
then_process next (returns value) = next value
then_process next skips = skips
then_process next stops = stops
then_process next raises = raises

-- The processors, the last of which is the merge
unfoldable pub process : {V : Type 0} → List (Option V → Processed V) → Option V → Processed V
process [] value = returns value
process (processor ∷ processors) value = then_process (process processors) (processor value)

abbrev pub fate_of : {V : Type 0} → Processed V → Fate V
fate_of (returns value) = yields value
fate_of skips = skipped
fate_of stops = finished
fate_of raises = skipped

-- Without an event, a value that comes to none is passed over.
abbrev pub plain_fate : {V : Type 0} → Fate V → Fate V
plain_fate (yields none) = again
plain_fate (yields (some value)) = yields (some value)
plain_fate skipped = skipped
plain_fate finished = finished
plain_fate again = again

module _ (it : IntervalTree) where
  pub record Streaming : Type 0 where
    pub consumer : Consumer it
    pub messages : ℕ → Message
    pub tracked : List ℕ
    pub events_total : ℕ

  module _ {V : Type 0} (acking : String → Bool) (processors : List (Option V → Processed V)) where
    -- The event is of the generation that the app is in.
    abbrev pub is_current : App → Event V → Bool
    is_current app e = app.flow_is_active && nat_beq e.generation_id app.consumer_generation_id

    unfoldable pub fate : App → Item V → Fate V
    unfolding process
    fate app (event e) = if is_current app e then fate_of (process processors e.value) else skipped
    fate app (plain value) = plain_fate (fate_of (process processors value))

    -- `message.tracked = True; add_unacked(message)`
    unfoldable pub track : Streaming → ℕ → Streaming
    track s ident =
        if acking (s.messages ident).tp.topic && not (contains s.tracked ident)
        then record s {
          consumer = track_message it s.consumer (s.messages ident);
          tracked = include s.tracked ident;
        }
        else s

    -- `event.ack()`
    unfoldable pub ack_event : Streaming → ℕ → Streaming
    ack_event s ident =
        let r = event_ack it s.consumer acking (s.messages ident) in
        record s { consumer = r.0; messages = λ i. if ident == i then r.1 else s.messages i }

    unfoldable pub arrive : Streaming → App → Item V → Streaming
    arrive s app (event e) = if is_current app e then track s e.ident else s
    arrive s app (plain value) = s

    -- The `finally` after a value: with `do_ack` or a skipped value, its event is acknowledged.
    unfoldable pub depart : Streaming → Item V → Bool → Streaming
    depart s (event e) is_acked = if is_acked then ack_event s e.ident else s
    depart s (plain value) is_acked = s

    -- The values that the user is given, and what is left behind
    unfoldable pub iterate : Streaming → List (App × Item V) → Streaming × List (Option V)
    iterate s [] = (s, [])
    iterate s ((app, item) ∷ items) = elim (fate app item) [
      | yields value ↦
          let s' = arrive s app item in
          let counted = record s' { events_total = s'.events_total + 1 } in
          let rest = iterate (depart counted item app.enable_acks) items in (rest.0, value ∷ rest.1)
      | skipped ↦ iterate (depart (arrive s app item) item true) items
      | finished ↦ (arrive s app item, [])
      | again ↦ iterate (arrive s app item) items
    ]
