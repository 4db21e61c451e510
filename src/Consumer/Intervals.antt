-- ===== src/Consumer/Intervals.antt =====
-- The package intervaltree, which the consumer keeps the gaps of a partition in: its operations
-- and the documented facts that the consumer relies on. `covers` says that an offset lies in
-- some interval of the tree.
use faust.Common.{ℕ, ◌≤◌, ◌<◌, ◌≡◌, Bool, true, false, List, All}

pub record IntervalTree : Type 1 where
  pub Tree : Type 0
  pub empty : Tree
  -- `bool(tree)`
  pub is_truthy : Tree → Bool
  pub addi : Tree → ℕ → ℕ → Tree
  pub merge_overlaps : Tree → Tree
  pub overlap : Tree → ℕ → ℕ → List (ℕ × ℕ)
  pub chop : Tree → ℕ → ℕ → Tree
  pub covers : Tree → ℕ → Bool
  -- What `overlap` returns are intervals of the tree, and no interval is empty.
  pub overlap_sound :
      (t : Tree) (lo hi : ℕ)
      → All (λ v. (v.0 < v.1) × ((x : ℕ) → v.0 ≤ x → x < v.1 → covers t x ≡ true)) (overlap t lo hi)
  -- `addi` adds its interval and nothing else; `merge_overlaps` keeps what is covered.
  pub covers_empty : (x : ℕ) → covers empty x ≡ false
  pub covers_addi :
      (t : Tree) (lo hi x : ℕ)
      → covers (addi t lo hi) x ≡ true
      → (covers t x ≡ false)
      → (lo ≤ x) × (x < hi)
  pub covers_added : (t : Tree) (lo hi x : ℕ) → lo ≤ x → x < hi → covers (addi t lo hi) x ≡ true
  pub covers_merge : (t : Tree) (x : ℕ) → covers (merge_overlaps t) x ≡ covers t x
