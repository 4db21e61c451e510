-- ===== src/Barrier/Join.antt =====
-- `Agent.kvjoin` of faust/agents/agent.py. Its messages are sent one by one, and replies may come
-- between them; the replies that come after all are sent come while it waits. The exception of a
-- reply goes to the consumer of replies, and that of `finalize` to the caller of kvjoin.
pub mod Places
pub mod Done
use faust.Common.{
  ℕ, zero, suc, ◌≡◌, Bool, true, false, List, [], ◌∷◌, Option, none, some, String, string_eq,
  length, set, if◌then◌else◌, replicate, Result, ok, err, key_error, Error,
}
use faust.Common.Dict.{Dict, get, put}
use faust.Barrier.{Barrier, new_barrier, add, finalize, fulfill}
use faust.Barrier.Completion.{fulfill_each}
use faust.Barrier.Delivery.{replies}

-- While the messages are sent: one is sent, with its correlation id, or a reply comes.
pub data Sending (V : Type 0) : Type 0 where
  sends : String → Sending V
  replied : String → V → Sending V

-- kvjoin has not returned yet, raises an exception, or returns.
pub data Joined (V : Type 0) : Type 0 where
  waits : Joined V
  raises : Error → Joined V
  returns : List (Option V) → Joined V

-- `posindex`, from the correlation ids in the order of the items
unfoldable pub posindex_from : Dict String ℕ → ℕ → List String → Dict String ℕ
posindex_from index i [] = index
posindex_from index i (id ∷ ids) = posindex_from (put index id i) (suc i) ids

module _ {V : Type 0} where
  -- `values[posindex[correlation_id]] = value`, for the replies in turn
  unfoldable pub place_each :
      Dict String ℕ → List (Option V) → List (String × V) → Result (List (Option V))
  place_each index values [] = ok values
  place_each index values ((id, value) ∷ later) = elim (get index id) [
    | none ↦ err key_error
    | some i ↦ place_each index (set values i (some value)) later
  ]

  -- `_barrier_send`
  unfoldable pub send_each : Barrier V → List (Sending V) → Barrier V
  send_each b [] = b
  send_each b (sends id ∷ sending) = send_each (add b) sending
  send_each b (replied id value ∷ sending) = send_each (fulfill b id value).0 sending

  abbrev pub sent_ids : List (Sending V) → List String
  sent_ids [] = []
  sent_ids (sends id ∷ sending) = id ∷ sent_ids sending
  sent_ids (replied id value ∷ sending) = sent_ids sending

  abbrev pub returned : Result (List (Option V)) → Joined V
  returned (ok values) = returns values
  returned (err e) = raises e

  -- After `await barrier`: the results of the barrier that is done, without the sentinels
  abbrev pub collect : Barrier V → List String → Joined V
  collect b ids =
      returned (place_each (posindex_from [] 0 ids) (replicate b.total none) (replies b.results))

  -- `await barrier`, while these replies come, unless `finalize` has raised an exception
  abbrev pub awaited : List (String × V) → List String → Barrier V × Option Error → Joined V
  awaited late ids (b, some e) = raises e
  awaited late ids (b, none) =
      let b' = fulfill_each b late in if b'.done then collect b' ids else waits

  unfoldable pub kvjoin : List (Sending V) → List (String × V) → Joined V
  unfolding posindex_from place_each send_each finalize fulfill_each replies
  kvjoin sending late = awaited late (sent_ids sending) (finalize (send_each new_barrier sending))
