-- ===== src/Streams/Take/Batches.antt =====
-- What the user of `take` is given, in every history.
use faust.Common.{ℕ, ◌<◌, ◌≡◌, ◌⊎◌, inl, inr, refl, true, List, ◌++◌, Option, length, All}
use faust.Streams.Take.{
  Variant, Adder, idle, blocked, full, ended, Consuming, unset, pending, done, Taking,
  add_to_buffer, give_batch, Reach, start, receive, resume_adding, resume_consumed, wake, ask,
}
use faust.Streams.Take.Invariant.{
  entries_in, events_in, given, left, with_entry, with_event, entries_of, events_of, HasAcked,
  HasRoom, IsBatch, IsTaking, initial-IsTaking,
}
use faust.Streams.Take.Steps.{
  receive-IsTaking, resume_adding-IsTaking, resume_consumed-IsTaking, wake-IsTaking, ask-IsTaking,
}

module _ {V E X : Type 0} (variant : Variant V E X) (max_ : ℕ) where
  take-IsTaking :
      (received : List (V × Option E)) (s : Taking V E X)
      → 0 < max_
      → Reach variant max_ received s
      → IsTaking variant max_ received s
  unfolding add_to_buffer give_batch
  take-IsTaking received s m start = initial-IsTaking variant max_ m
  take-IsTaking received s m (receive {received = old} {s = t} v e a r) =
      receive-IsTaking variant max_ old t (take-IsTaking old t m r) v e t.consuming a refl
  take-IsTaking received s m (resume_adding {received = old} {s = t} v e a c r) =
      resume_adding-IsTaking variant max_ old t (take-IsTaking old t m r) v e a c
  take-IsTaking received s m (resume_consumed {received = old} {s = t} a c r) =
      resume_consumed-IsTaking variant max_ old t (take-IsTaking old t m r) a c
  take-IsTaking received s m (wake {received = old} {s = t} y r) =
      wake-IsTaking variant max_ old t (take-IsTaking old t m r) t.buffer refl y
  take-IsTaking received s m (ask {received = old} {s = t} y r) =
      ask-IsTaking variant max_ old t (take-IsTaking old t m r) m y

  -- In every history of the take of a stream whose maximum is above zero: the batches given, one
  -- after another, then what the buffer still holds, and the value that waits to be added, are the
  -- values received, in order, and so are their events; every batch has at least one value, and no
  -- more than the maximum; and where events are acknowledged for the user, those acknowledged are,
  -- in order, the ones of the batches that the user is done with, while none is acknowledged
  -- otherwise.
  pub take_lem :
      (received : List (V × Option E)) (s : Taking V E X)
      → 0 < max_
      → Reach variant max_ received s
      → (given entries_in s.batches ++ with_entry variant s.adder (left s.yielded s.buffer)
          ≡ entries_of variant received)
        × (given events_in s.batches ++ with_event s.adder (left s.yielded s.events)
            ≡ events_of received)
        × HasAcked variant.acks s.yielded s.acked s.events s.batches
        × All (IsBatch max_) s.batches
  take_lem received s m r =
      let h = take-IsTaking received s m r in
      (h.all_entries, h.all_events, h.acknowledged, h.batched)

  -- The processor can go on, or the user has a batch, or is given one without waiting.
  abbrev pub GoesOn : Adder V E → Taking V E X → Type 0
  GoesOn idle s = Unit
  GoesOn (blocked v e) s = (s.consuming ≡ done) ⊎ (s.yielded ≡ true)
  GoesOn full s = (s.buffer_consumed ≡ true) ⊎ ((s.buffer_full ≡ true) × (0 < length s.buffer))
  GoesOn ended s = Unit

  goes_on :
      (w : Adder V E) (c : Consuming) (s : Taking V E X)
      → s.consuming ≡ c
      → ((s.consuming ≡ pending) → s.yielded ≡ true)
      → HasRoom max_ w s
      → GoesOn w s
  goes_on idle c s e k r = tt
  goes_on (blocked v o) unset s e k r = absurd (r.1 e)
  goes_on (blocked v o) pending s e k r = inr (k e)
  goes_on (blocked v o) done s e k r = inl e
  goes_on full c s e k (l, inl r) = inl r.0
  goes_on full c s e k (l, inr r) = inr (r.1, r.2)
  goes_on ended c s e k r = tt

  -- In every history of the take of a stream whose maximum is above zero: where the processor
  -- waits for the future, either the future is done or the user has a batch; and where it waits
  -- for the buffer to be consumed, either it has been, or the buffer is marked full and has a
  -- value, so that the user's wait ends with a batch.
  pub take-never_stuck :
      (received : List (V × Option E)) (s : Taking V E X)
      → 0 < max_
      → Reach variant max_ received s
      → GoesOn s.adder s
  take-never_stuck received s m r =
      let h = take-IsTaking received s m r in goes_on s.adder s.consuming s refl h.kept h.room
