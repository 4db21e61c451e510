-- ===== src/Consumer/Offsets/PassesOver.antt =====
-- Where `_new_offset` of faust/transport/consumer.py takes a batch that begins beyond the committed
-- offset.
use faust.Common.{ℕ, ◌+◌, ◌<◌, ◌≡◌, false, List, [], ◌∷◌, some, arith, nat_eq}
use faust.Common.Order.{sorted_by, insert_by}
use faust.Consumer.Intervals.{IntervalTree}
use faust.Consumer.Offsets.{first_run, last, committed_behind, absorb_gap, take_batch, new_offset}

module _ (it : IntervalTree) where
  open it use {Tree, is_truthy}

  -- Where c, above 0, is the committed offset of a partition whose gap is empty, and c + 1 is the
  -- only acknowledged offset, _new_offset returns c + 2, and so passes over c.
  pub new_offset-passes_over :
      (c : ℕ) (index : List ℕ) (gap : Tree)
      → 0 < c
      → is_truthy gap ≡ false
      → (new_offset it (some c) (record { acked = (c + 1) ∷ []; acked_index = index; gap = gap })).0
        ≡ some (c + 2)
  unfolding new_offset take_batch absorb_gap committed_behind first_run last sorted_by insert_by
  new_offset-passes_over c index gap pos no_gap = ground (arith, no_gap)
