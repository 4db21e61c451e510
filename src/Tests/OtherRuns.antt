-- ===== src/Tests/OtherRuns.antt =====
-- Attachments, barriers and the cache on short histories.
use faust.Common.{ℕ, ◌≡◌, refl, false, [], ◌∷◌, arith, String, string_eq, nat_eq}
use faust.Common.Dict.{get}
use faust.Types.{Tp, tp_eq}
use faust.Attachments.{Attachment, Pending, heap_of, publish_for_tp_offset}
use faust.Attachments.Published.{publish_for_tp_offset_lem}
use faust.Barrier.{Barrier, new_barrier, add, finalize, fulfill}
use faust.Barrier.Delivery.{Reach, start, added, finalized, replied, IsBarrier, reach-IsBarrier}
use faust.Cache.{Storage}

abbrev orders : Tp
orders = record { topic = "orders"; partition = 0 }

abbrev attached : ℕ → ℕ → Attachment ℕ
attached offset message = record { offset = offset; message = message }

abbrev waiting : Pending ℕ
waiting = (orders, attached 3 30 ∷ attached 4 40 ∷ attached 6 60 ∷ []) ∷ []

publish_for_tp_offset_example :
    ((publish_for_tp_offset waiting orders 4).0 ≡ 30 ∷ 40 ∷ [])
    × (heap_of (publish_for_tp_offset waiting orders 4).1 orders ≡ attached 6 60 ∷ [])
unfolding get
publish_for_tp_offset_example =
    publish_for_tp_offset_lem waiting orders orders 4
      (((omega arith, (omega arith, tt)), ((omega arith, tt), (tt, tt))), tt)

-- Two promises, one of them fulfilled before the barrier is finalized.
abbrev one_reply : Barrier ℕ
one_reply = (fulfill (add (add new_barrier)) "a" 1).0

abbrev two_replies : Barrier ℕ
two_replies = (fulfill (finalize one_reply).0 "b" 2).0

abbrev history : Reach false two_replies (("a", 1) ∷ ("b", 2) ∷ []) []
unfolding fulfill finalize add
history = replied "b" 2 (finalized (replied "a" 1 (added (added start)) refl) refl) refl

reach-IsBarrier_example : IsBarrier false two_replies (("a", 1) ∷ ("b", 2) ∷ []) []
reach-IsBarrier_example = reach-IsBarrier false two_replies (("a", 1) ∷ ("b", 2) ∷ []) [] history

abbrev storage : Storage String ℕ
storage = record { values = ("a", 1) ∷ []; time_index = ("a", 10) ∷ []; expires = ("a", 5) ∷ [] }
