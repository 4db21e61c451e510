-- ===== src/Scheduler.antt =====
-- faust/transport/utils.py: the order in which the consumer delivers the records it has fetched.
pub mod Buffers
pub mod Passes
pub mod Rounds
pub mod Delivery
use faust.Common.{
  ℕ, zero, suc, ◌+◌, ◌≡◌, List, [], ◌∷◌, ◌++◌, Option, none, some, if◌then◌else◌, String, string_eq,
  length,
}
use faust.Common.Dict.{Dict, get, put}
use faust.Types.{Tp}

-- `TopicBuffer`, between two calls of `next` on it: the partitions that the pass in progress has
-- still to visit, and those that it visited and found a record in. One that it found none in is in
-- `to_remove`, and is not visited again.
pub record TopicBuffer (M : Type 0) : Type 0 where
  pub ahead : List (Tp × List M)
  pub visited : List (Tp × List M)

-- What a pass comes to: a record and the buffer after it, or the end of the pass.
pub data Visit (M : Type 0) : Type 0 where
  yielded : Tp × M → TopicBuffer M → Visit M
  ended : List (Tp × List M) → Visit M

module _ {M : Type 0} where
  unfoldable pub visit : List (Tp × List M) → List (Tp × List M) → Visit M
  visit [] visited = ended visited
  visit ((tp, []) ∷ ahead) visited = visit ahead visited
  visit ((tp, m ∷ ms) ∷ ahead) visited =
      yielded (tp, m) (record { ahead = ahead; visited = visited ++ (tp, ms) ∷ [] })

  -- A pass that found no record leaves none to visit, so `while buffers` ends after it.
  unfoldable pub next_pass : Visit M → Option ((Tp × M) × TopicBuffer M)
  unfolding visit
  next_pass (yielded item b) = some (item, b)
  next_pass (ended visited) = elim (visit visited []) [
    | yielded item b ↦ some (item, b)
    | ended _ ↦ none
  ]

  -- `__next__`: `none` is `StopIteration`.
  unfoldable pub next_record : TopicBuffer M → Option ((Tp × M) × TopicBuffer M)
  unfolding next_pass
  next_record b = next_pass (visit b.ahead b.visited)

  -- `TopicBuffer.add`, before the first `next`
  unfoldable pub add : TopicBuffer M → Tp → List M → TopicBuffer M
  add b tp messages = record b { ahead = b.ahead ++ (tp, messages) ∷ [] }

  abbrev pub new_buffer : TopicBuffer M
  new_buffer = record { ahead = []; visited = [] }

  abbrev pub buffer_or_new : Option (TopicBuffer M) → TopicBuffer M
  buffer_or_new none = new_buffer
  buffer_or_new (some b) = b

  unfoldable pub index_records :
      Dict String (TopicBuffer M) → List (Tp × List M) → Dict String (TopicBuffer M)
  unfolding add
  index_records index [] = index
  index_records index ((tp, messages) ∷ records) =
      index_records (put index tp.topic (add (buffer_or_new (get index tp.topic)) tp messages))
        records

  unfoldable pub map_from_records : List (Tp × List M) → Dict String (TopicBuffer M)
  unfolding index_records
  map_from_records records = index_records [] records

  -- The topics in turn, one record each; a topic without one is not there in the next round.
  unfoldable pub round : Dict String (TopicBuffer M) → List (Tp × M) × Dict String (TopicBuffer M)
  unfolding next_record
  round [] = ([], [])
  round ((topic, b) ∷ index) =
      let rest = round index in
      elim (next_record b) [ none ↦ rest | some (item, b') ↦ (item ∷ rest.0, (topic, b') ∷ rest.1) ]

  -- `while index`, for as many rounds as the fuel says; `none` where they are too few
  unfoldable pub records_iterator : ℕ → Dict String (TopicBuffer M) → Option (List (Tp × M))
  unfolding round
  records_iterator fuel [] = some []
  records_iterator zero (e ∷ index) = none
  records_iterator (suc fuel) (e ∷ index) =
      let r = round (e ∷ index) in
      elim (records_iterator fuel r.1) [ none ↦ none | some items ↦ some (r.0 ++ items) ]

  unfoldable pub iterate : ℕ → List (Tp × List M) → Option (List (Tp × M))
  unfolding map_from_records records_iterator
  iterate fuel records = records_iterator fuel (map_from_records records)
