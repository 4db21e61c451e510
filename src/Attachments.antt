-- ===== src/Attachments.antt =====
-- faust/app/_attached.py: messages that wait until an offset of their source topic is committed.
pub mod Published
use faust.Common.{
  ℕ, ◌≡◌, refl, Bool, true, false, List, [], ◌∷◌, Option, none, some, if◌then◌else◌, leb, Result,
  ok, err, value_error,
}
use faust.Common.Dict.{Dict, get, put}
use faust.Common.Order.{insert_by}
use faust.Types.{Tp, tp_eq}

pub record Attachment (M : Type 0) : Type 0 where
  pub offset : ℕ
  pub message : M

-- A heap queue for each partition, as the list of its entries from the smallest offset up:
-- `heappush` inserts, `heappop` takes the first.
abbrev pub Pending : Type 0 → Type 0
Pending M = Dict Tp (List (Attachment M))

module _ {M : Type 0} where
  abbrev pub heappush : List (Attachment M) → Attachment M → List (Attachment M)
  heappush heap entry = insert_by (λ a. a.offset) entry heap

  abbrev pub heap_or : Option (List (Attachment M)) → List (Attachment M)
  heap_or none = []
  heap_or (some heap) = heap

  -- `_pending[tp]` of a defaultdict
  abbrev pub heap_of : Pending M → Tp → List (Attachment M)
  heap_of pending tp = heap_or (get pending tp)

  unfoldable pub put_message : Pending M → Tp → ℕ → M → Pending M
  put_message pending tp offset message =
      put pending tp (heappush (heap_of pending tp) (record { offset = offset; message = message }))

  -- The loop of `_attachments_for`: the messages it yields, and the heap it leaves.
  unfoldable pub pop_attached : List (Attachment M) → ℕ → List M × List (Attachment M)
  pop_attached [] commit_offset = ([], [])
  pop_attached (entry ∷ heap) commit_offset =
      let rest = pop_attached heap commit_offset in
      if leb entry.offset commit_offset
      then (entry.message ∷ rest.0, rest.1)
      else ([], heappush heap entry)

  unfoldable pub attachments_in :
      Pending M → Tp → ℕ → Option (List (Attachment M)) → List M × Pending M
  unfolding pop_attached
  attachments_in pending tp commit_offset none = ([], pending)
  attachments_in pending tp commit_offset (some heap) =
      let r = pop_attached heap commit_offset in (r.0, put pending tp r.1)

  unfoldable pub attachments_for : Pending M → Tp → ℕ → List M × Pending M
  unfolding attachments_in
  attachments_for pending tp commit_offset =
      attachments_in pending tp commit_offset (get pending tp)

  -- The messages are published in the order of the list.
  unfoldable pub publish_for_tp_offset : Pending M → Tp → ℕ → List M × Pending M
  unfolding attachments_for
  publish_for_tp_offset pending tp offset = attachments_for pending tp offset

  -- `asyncio.wait` refuses an empty list.
  abbrev pub wait_all : List M → Result (List M)
  wait_all [] = err value_error
  wait_all (m ∷ messages) = ok (m ∷ messages)

  unfoldable pub commit : Pending M → Tp → ℕ → Result (List M) × Pending M
  unfolding publish_for_tp_offset
  commit pending tp offset = let r = publish_for_tp_offset pending tp offset in (wait_all r.0, r.1)
