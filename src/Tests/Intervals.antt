-- ===== src/Tests/Intervals.antt =====
-- An interval tree as the list of its intervals.
use faust.Common.{
  ℕ, ◌≤◌, ◌<◌, min, max, ◌≡◌, refl, Bool, true, false, ◌&&◌, ◌||◌, List, [], ◌∷◌, ◌++◌, arith,
  if◌then◌else◌, ltb, leb, length, All, keep, Bool-cases, inl, inr,
}
use faust.Consumer.Intervals.{IntervalTree}

abbrev pub covers : List (ℕ × ℕ) → ℕ → Bool
covers [] x = false
covers (v ∷ t) x = leb v.0 x && ltb x v.1 || covers t x

abbrev meets : ℕ → ℕ → ℕ × ℕ → Bool
meets lo hi v = ltb v.0 v.1 && (ltb v.0 hi && ltb lo v.1)

abbrev piece : ℕ → ℕ → List (ℕ × ℕ)
piece a b = if ltb a b then (a, b) ∷ [] else []

abbrev pub chop : List (ℕ × ℕ) → ℕ → ℕ → List (ℕ × ℕ)
chop [] lo hi = []
chop (v ∷ t) lo hi = piece v.0 (min v.1 lo) ++ piece (max v.0 hi) v.1 ++ chop t lo hi

abbrev Sound : List (ℕ × ℕ) → ℕ × ℕ → Type 0
Sound t v = (v.0 < v.1) × ((x : ℕ) → v.0 ≤ x → x < v.1 → covers t x ≡ true)

Sound-later : (w : ℕ × ℕ) (t vs : List (ℕ × ℕ)) → All (Sound t) vs → All (Sound (w ∷ t)) vs
Sound-later w t [] h = tt
Sound-later w t (v ∷ vs) h = ((h.0.0, λ x a b. ground (arith, h.0.1 x a b)), Sound-later w t vs h.1)

pub keep-Sound : (lo hi : ℕ) (t : List (ℕ × ℕ)) → All (Sound t) (keep (meets lo hi) t)
keep-Sound lo hi [] = tt
keep-Sound lo hi (v ∷ t) = elim (Bool-cases (meets lo hi v)) [
  | inl y ↦ rw y (
    (ground arith, λ x a b. ground arith),
    Sound-later v t (keep (meets lo hi) t) (keep-Sound lo hi t),
  )
  | inr n ↦ rw n (Sound-later v t (keep (meets lo hi) t) (keep-Sound lo hi t))
]

abbrev pub list_tree : IntervalTree
list_tree = record {
  Tree = List (ℕ × ℕ);
  empty = [];
  is_truthy = λ t. ltb 0 (length t);
  addi = λ t lo hi. (lo, hi) ∷ t;
  merge_overlaps = λ t. t;
  overlap = λ t lo hi. keep (meets lo hi) t;
  chop = chop;
  covers = covers;
  overlap_sound = λ t lo hi. keep-Sound lo hi t;
  covers_empty = λ x. refl;
  covers_addi = λ t lo hi x h n. (ground arith, ground arith);
  covers_added = λ t lo hi x a b. ground arith;
  covers_merge = λ t x. refl;
}
