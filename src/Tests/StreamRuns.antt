-- ===== src/Tests/StreamRuns.antt =====
-- Streams on a few values.
use faust.Common.{
  ℕ, ◌+◌, All, if◌then◌else◌, ◌==◌, ◌≡◌, refl, true, false, List, [], ◌∷◌, ◌++◌, Option, none, some,
  arith, contains, nat_eq,
}
use faust.Common.Dict.{get}
use faust.Consumer.{get_default}
use faust.Streams.Take.{
  Variant, Taking, take, initial, Reach, start, receive, wake, add_to_buffer, give_batch,
}
use faust.Streams.Take.Invariant.{
  entries_in, events_in, given, left, with_entry, with_event, entries_of, events_of, HasAcked,
  IsBatch,
}
use faust.Streams.Take.Batches.{take_lem, take-never_stuck, GoesOn}
use faust.Streams.Iteration.{
  Event, event, Item, plain, Processed, returns, skips, stops, raises, App, Streaming, fate,
  iterate,
}
use faust.Streams.Iteration.Acks.{Iterates, iterate-values}
use faust.Streams.Iteration.Stale.{iterate-acks_stale}
use faust.Tests.Intervals.{list_tree}
use faust.Tests.ConsumerRuns.{consumer, orders, all_topics}

abbrev two : List (ℕ × Option ℕ)
two = (10, some 0) ∷ (11, some 1) ∷ []

abbrev values : Variant ℕ ℕ ℕ
values = take

-- The buffer of two is filled, and the user is given it.
abbrev taken : Taking ℕ ℕ ℕ
unfolding add_to_buffer give_batch
taken =
    give_batch values 2
      (add_to_buffer values 2 (add_to_buffer values 2 initial 10 (some 0)) 11 (some 1))

history : Reach values 2 two taken
unfolding add_to_buffer give_batch
history = wake refl (receive 11 (some 1) refl (receive 10 (some 0) refl start))

take_example :
    (given entries_in taken.batches
        ++ with_entry values taken.adder (left taken.yielded taken.buffer)
      ≡ entries_of values two)
    × (given events_in taken.batches ++ with_event taken.adder (left taken.yielded taken.events)
        ≡ events_of two)
    × HasAcked true taken.yielded taken.acked taken.events taken.batches
    × All (IsBatch 2) taken.batches
take_example = take_lem values 2 two taken (omega arith) history

take-never_stuck_example : GoesOn values 2 taken.adder taken
take-never_stuck_example = take-never_stuck values 2 two taken (omega arith) history

abbrev app : App
app = record { flow_is_active = true; consumer_generation_id = 4; enable_acks = true }

abbrev streaming : Streaming list_tree
streaming = record {
  consumer = consumer;
  messages = λ i. record { ident = i; tp = orders; offset = 7 + i; acked = false; refcount = 1 };
  tracked = [];
  events_total = 0;
}

abbrev item : ℕ → ℕ → Event ℕ
item i generation = record { ident = i; generation_id = generation; value = some i }

-- A filter that skips the value 2
abbrev not_two : Option ℕ → Processed ℕ
not_two none = returns none
not_two (some v) = if v == 2 then skips else returns (some v)

-- A processor that skips 2, raises an exception for 3, and ends the iteration at 4
abbrev picky : Option ℕ → Processed ℕ
picky none = returns none
picky (some v) =
    if v == 2 then skips else if v == 3 then raises else if v == 4 then stops else returns (some v)

-- The event of number 5 is of another generation.
abbrev items : List (App × Item ℕ)
items =
    (app, event (item 1 4))
    ∷ (app, event (item 2 4))
    ∷ (app, event (item 3 4))
    ∷ (app, event (item 5 3))
    ∷ (app, plain none)
    ∷ (app, event (item 6 4))
    ∷ (app, event (item 4 4))
    ∷ (app, event (item 7 4))
    ∷ []

picky_values : (iterate list_tree all_topics (picky ∷ []) streaming items).1 ≡ some 1 ∷ some 6 ∷ []
unfolding iterate fate
picky_values = refl

iterate-values_example :
    Iterates list_tree all_topics
      (picky ∷ [])
      streaming
      items
      (iterate list_tree all_topics (picky ∷ []) streaming items)
iterate-values_example = iterate-values list_tree all_topics (picky ∷ []) streaming items

iterate-acks_stale_example :
    ((iterate list_tree all_topics (not_two ∷ []) streaming ((app, event (item 1 3)) ∷ [])).1 ≡ [])
    × (contains
          (get_default
            (iterate list_tree all_topics
              (not_two ∷ [])
              streaming
              ((app, event (item 1 3)) ∷ [])).0.consumer.acked
            orders
            [])
          8
        ≡ true)
unfolding get
iterate-acks_stale_example =
    iterate-acks_stale list_tree all_topics (not_two ∷ []) streaming app (item 1 3) refl refl refl
      refl refl refl
