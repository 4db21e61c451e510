-- ===== src/Streams/Take.antt =====
-- `take`, `take_events`, `take_with_timestamp` and `noack_take` of faust/streams.py: a processor of
-- the stream, which a background task drives, fills a buffer that the user empties. The two meet
-- in a future and two events; a history is a sequence of their steps, between any two `await`s.
pub mod Invariant
pub mod Steps
pub mod Batches
use faust.Common.{
  ℕ, ◌≤◌, ◌<◌, ◌≡◌, Bool, true, false, List, [], ◌∷◌, ◌++◌, Option, none, some, if◌then◌else◌,
  length, leb,
}

-- What a value is put in the buffer as, given its event, and what if there is none: nothing where
-- that raises an exception first. And whether the events are acknowledged for the user.
pub record Variant (V E X : Type 0) : Type 0 where
  pub entry : V → E → X
  pub entry_without_event : V → Option X
  pub acks : Bool

abbrev pub take : {V E : Type 0} → Variant V E V
take = record { entry = λ v e. v; entry_without_event = λ v. some v; acks = true }

-- The user is given the events.
abbrev pub take_events : {V E : Type 0} → Variant V E V
take_events = record { entry = λ v e. v; entry_without_event = λ v. some v; acks = true }

-- `stamp` puts the timestamp of the event's message into a value that is a dict; `is_stamped` says
-- whether the value is one, and there is a name for the field.
abbrev pub take_with_timestamp : {V E : Type 0} → (V → E → V) → (V → Bool) → Variant V E V
take_with_timestamp stamp is_stamped = record {
  entry = stamp;
  entry_without_event = λ v. if is_stamped v then none else some v;
  acks = true;
}

abbrev pub noack_take : {V E : Type 0} → Variant V E (Option E)
noack_take = record { entry = λ v e. some e; entry_without_event = λ v. some none; acks = false }

-- Where the processor is: between two values, waiting for `buffer_consuming`, waiting for
-- `buffer_consumed`, or at its end, since it made the stream crash.
pub data Adder (V E : Type 0) : Type 0 where
  idle : Adder V E
  blocked : V → Option E → Adder V E
  full ended : Adder V E

-- The future `buffer_consuming`
pub data Consuming : Type 0 where
  unset pending done : Consuming

-- `yielded` says that the user has a batch. The batches, with their events, and the events that
-- were acknowledged, are those of the whole history.
pub record Taking (V E X : Type 0) : Type 0 where
  pub buffer : List X
  pub events : List E
  pub buffer_full : Bool
  pub buffer_consumed : Bool
  pub consuming : Consuming
  pub adder : Adder V E
  pub yielded : Bool
  pub batches : List (List X × List E)
  pub acked : List E

abbrev pub initial : {V E X : Type 0} → Taking V E X
initial = record {
  buffer = [];
  events = [];
  buffer_full = false;
  buffer_consumed = false;
  consuming = unset;
  adder = idle;
  yielded = false;
  batches = [];
  acked = [];
}

abbrev pub option_list : {X : Type 0} → Option X → List X
option_list none = []
option_list (some x) = x ∷ []

abbrev pub buffer_entry : {V E X : Type 0} → Variant V E X → V → Option E → List X
buffer_entry variant v none = option_list (variant.entry_without_event v)
buffer_entry variant v (some e) = variant.entry v e ∷ []

module _ {V E X : Type 0} (variant : Variant V E X) (max_ : ℕ) where
  -- `add_to_buffer` after the future
  unfoldable pub add : Taking V E X → V → Option E → Taking V E X
  add s v none = record s {
    buffer = s.buffer ++ buffer_entry variant v none;
    adder = ended;
    consuming = unset;
  }
  add s v (some e) =
      let buffer = s.buffer ++ variant.entry v e ∷ [] in
      let is_full = leb max_ (length buffer) in
      record s {
        buffer = buffer;
        events = s.events ++ e ∷ [];
        buffer_full = if is_full then true else s.buffer_full;
        buffer_consumed = if is_full then false else s.buffer_consumed;
        adder = if is_full then full else idle;
        consuming = unset;
      }

  abbrev pub wait_or_add : Taking V E X → Consuming → V → Option E → Taking V E X
  wait_or_add s unset v e = add s v e
  wait_or_add s pending v e = record s { adder = blocked v e }
  wait_or_add s done v e = add s v e

  -- `add_to_buffer`, up to where it waits
  unfoldable pub add_to_buffer : Taking V E X → V → Option E → Taking V E X
  unfolding add
  add_to_buffer s v e = wait_or_add s s.consuming v e

  -- `if buffer`
  abbrev pub give_unless_empty : Taking V E X → List X → Taking V E X
  give_unless_empty s [] = s
  give_unless_empty s (x ∷ xs) = record s {
    consuming = pending;
    yielded = true;
    batches = s.batches ++ (s.buffer, s.events) ∷ [];
  }

  -- The wait for `buffer_full` is over, or timed out: the user is given what there is.
  unfoldable pub give_batch : Taking V E X → Taking V E X
  give_batch s = give_unless_empty s s.buffer

  -- The user asks for the next batch, or stops asking.
  unfoldable pub after_batch : Taking V E X → Taking V E X
  after_batch s = record s {
    buffer = [];
    acked = if variant.acks then s.acked ++ s.events else s.acked;
    events = [];
    consuming = done;
    buffer_full = false;
    buffer_consumed = true;
    yielded = false;
  }

  -- The histories, with the values that the processor was called with, and their events
  pub data Reach : List (V × Option E) → Taking V E X → Type 0 where
    start : Reach [] initial
    receive :
        {received : List (V × Option E)} {s : Taking V E X} (v : V) (e : Option E)
        → s.adder ≡ idle
        → Reach received s
        → Reach (received ++ (v, e) ∷ []) (add_to_buffer s v e)
    resume_adding :
        {received : List (V × Option E)} {s : Taking V E X} (v : V) (e : Option E)
        → s.adder ≡ blocked v e
        → s.consuming ≡ done
        → Reach received s
        → Reach received (add s v e)
    resume_consumed :
        {received : List (V × Option E)} {s : Taking V E X}
        → s.adder ≡ full
        → s.buffer_consumed ≡ true
        → Reach received s
        → Reach received (record s { adder = idle })
    wake :
        {received : List (V × Option E)} {s : Taking V E X}
        → s.yielded ≡ false
        → Reach received s
        → Reach received (give_batch s)
    ask :
        {received : List (V × Option E)} {s : Taking V E X}
        → s.yielded ≡ true
        → Reach received s
        → Reach received (after_batch s)
