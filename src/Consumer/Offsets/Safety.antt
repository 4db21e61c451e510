-- ===== src/Consumer/Offsets/Safety.antt =====
-- What the offset that `_new_offset` returns covers, and what it keeps.
use faust.Common.{ℕ, zero, suc, ◌+◌, ◌≤◌, ◌<◌, ◌≡◌, true, Option, none, some, nat_eq}
use faust.Consumer.Intervals.{IntervalTree}

-- The offset is not above the committed one by more than one. None committed, or 0, is no limit.
abbrev pub IsNotAhead : Option ℕ → ℕ → Type 0
IsNotAhead none m = Unit
IsNotAhead (some zero) m = Unit
IsNotAhead (some (suc c)) m = m ≤ suc c + 1

module _ (it : IntervalTree) where
  open it use {Tree, is_truthy, overlap, chop, covers, overlap_sound}

  abbrev InTree : Tree → (ℕ × ℕ) → Type 0
  InTree t v = (v.0 < v.1) × ((x : ℕ) → v.0 ≤ x → x < v.1 → covers t x ≡ true)
