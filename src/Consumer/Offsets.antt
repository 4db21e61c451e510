-- ===== src/Consumer/Offsets.antt =====
-- `_new_offset` of faust/transport/consumer.py, for one partition, and `consecutive_numbers` of
-- faust/utils/functional.py, of which it takes the first run.
pub mod Safety
pub mod PassesOver
use faust.Common.{
  ℕ, zero, suc, ◌+◌, ◌-◌, ◌≤◌, ◌<◌, max, ◌≡◌, refl, Bool, true, false, not, ◌&&◌, ◌||◌, List, [],
  ◌∷◌, ◌++◌, Option, none, some, arith, if◌then◌else◌, ◌==◌, nat_eq, ltb, contains, keep, length,
  range_from, drop,
}
use faust.Common.Order.{sorted_by}
use faust.Consumer.Intervals.{IntervalTree}

-- The first of the runs that `groupby(enumerate(it), index - value)` yields.
unfoldable pub first_run : ℕ → List ℕ → List ℕ
first_run x [] = x ∷ []
first_run x (y ∷ ys) = let rest = first_run y ys in if y == suc x then x ∷ rest else x ∷ []

-- `max(xs)` of a list that begins with x, and `xs[-1]`
unfoldable pub maximum : ℕ → List ℕ → ℕ
maximum x [] = x
maximum x (y ∷ ys) = max x (maximum y ys)

unfoldable pub last : ℕ → List ℕ → ℕ
last x [] = x
last x (y ∷ ys) = last y ys

-- `for entry in sorted_candidates: stuff_to_add.extend(range(entry.begin, entry.end))`
unfoldable pub stuff_to_add : List (ℕ × ℕ) → List ℕ
stuff_to_add [] = []
stuff_to_add (v ∷ vs) = range_from v.0 (v.1 - v.0) ++ stuff_to_add vs

unfoldable pub committed_behind : Option ℕ → ℕ → Bool
committed_behind none first = false
committed_behind (some zero) first = false
committed_behind (some (suc c)) first = ltb (suc c + 1) first

module _ (it : IntervalTree) where
  open it use {Tree, is_truthy, overlap, chop}

  -- The three values that belong to the partition, and the result.
  pub record Pending : Type 0 where
    pub acked : List ℕ
    pub acked_index : List ℕ
    pub gap : Tree

  -- The ranges of the gap up to the highest acked offset move to the acked offsets.
  unfoldable pub absorb_gap : ℕ → List ℕ → Tree → List ℕ × Tree
  absorb_gap x xs gap =
      let max_offset = maximum x xs in
      if is_truthy gap
      then elim (stuff_to_add (sorted_by (λ v. v.0) (overlap gap 0 max_offset))) [
        | [] ↦ (x ∷ xs, gap)
        | s ∷ ss ↦ ((x ∷ xs) ++ s ∷ ss, chop gap 0 (max (last s ss) (max_offset + 1)))
      ]
      else (x ∷ xs, gap)

  -- The rest, on the sorted list.
  unfoldable pub take_batch : Option ℕ → List ℕ → List ℕ → Tree → Option ℕ × Pending
  take_batch committed [] index gap = (none, record { acked = []; acked_index = index; gap = gap })
  take_batch committed (x ∷ xs) index gap =
      if committed_behind committed x
      then (none, record { acked = x ∷ xs; acked_index = index; gap = gap })
      else let batch = first_run x xs in
        (
          some (last x batch + 1),
          record {
            acked = drop (length batch) (x ∷ xs);
            acked_index = keep (λ o. not (contains batch o)) index;
            gap = gap;
          },
        )

  unfoldable pub new_offset : Option ℕ → Pending → Option ℕ × Pending
  unfolding absorb_gap take_batch
  new_offset committed p = elim p.acked [
    | [] ↦ (none, p)
    | x ∷ xs ↦
        let (acked, gap) = absorb_gap x xs p.gap in
        take_batch committed (sorted_by (λ o. o) acked) p.acked_index gap
  ]
