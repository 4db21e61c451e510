-- ===== src/Common/Order.antt =====
-- Stable insertion sort by a key, `sorted(xs, key=...)`, and ranges.
use Prim.Native.Nat.{ℕ, zero, suc, ◌+◌, ◌≤◌, ◌<◌}
use mathlib.Core.Path.{◌≡◌, refl}
use mathlib.Core.Bool.{true}
use mathlib.Core.List.{List, [], ◌∷◌}
use native.Mathlib.Omega.{arith}
use faust.Common.Tests.{leb, if◌then◌else◌, nat_eq, Bool-cases}
use mathlib.Core.Logic.{inl, inr}
use faust.Common.Lists.{length, All, contains, range, range_from}

module _ {ℓ} {A : Type ℓ} (key : A → ℕ) where
  unfoldable pub insert_by : A → List A → List A
  insert_by x [] = x ∷ []
  insert_by x (y ∷ ys) = if leb (key x) (key y) then x ∷ y ∷ ys else y ∷ insert_by x ys

  unfoldable pub sorted_by : List A → List A
  unfolding insert_by
  sorted_by [] = []
  sorted_by (x ∷ xs) = insert_by x (sorted_by xs)

  length-insert_by : (x : A) (xs : List A) → length (insert_by x xs) ≡ suc (length xs)
  unfolding insert_by
  length-insert_by x [] = refl
  length-insert_by x (y ∷ ys) = ground (arith, length-insert_by x ys)

  pub length-sorted_by : (xs : List A) → length (sorted_by xs) ≡ length xs
  unfolding sorted_by
  length-sorted_by [] = refl
  length-sorted_by (x ∷ xs) = omega (arith, length-insert_by x (sorted_by xs), length-sorted_by xs)

contains-insert_by :
    (key : ℕ → ℕ) (x j : ℕ) (xs : List ℕ) → contains (insert_by key x xs) j ≡ contains (x ∷ xs) j
unfolding insert_by
contains-insert_by key x j [] = refl
contains-insert_by key x j (y ∷ ys) = ground (arith, contains-insert_by key x j ys)

-- Sorting keeps the members.
pub contains-sorted_by :
    (key : ℕ → ℕ) (j : ℕ) (xs : List ℕ) → contains (sorted_by key xs) j ≡ contains xs j
unfolding sorted_by
contains-sorted_by key j [] = refl
contains-sorted_by key j (x ∷ xs) =
    ground (arith, contains-insert_by key x j (sorted_by key xs), contains-sorted_by key j xs)

length-range_from : (start n : ℕ) → length (range_from start n) ≡ n
length-range_from start zero = refl
length-range_from start (suc n) = omega (arith, length-range_from (suc start) n)

contains-range_from :
    (start n j : ℕ) → start ≤ j → j < start + n → contains (range_from start n) j ≡ true
contains-range_from start zero j h k = absurd (omega arith)
contains-range_from start (suc n) j h k = ground (arith, contains-range_from (suc start) n j)

pub length-range : (n : ℕ) → length (range n) ≡ n
length-range n = length-range_from 0 n

pub contains-range : (n j : ℕ) → j < n → contains (range n) j ≡ true
contains-range n j h = contains-range_from 0 n j (omega arith) (omega arith)

module _ {ℓ κ} {A : Type ℓ} (P : A → Type κ) (key : A → ℕ) where
  All-insert_by : (x : A) (xs : List A) → P x → All P xs → All P (insert_by key x xs)
  unfolding insert_by
  All-insert_by x [] p h = (p, tt)
  All-insert_by x (y ∷ ys) p h = elim (Bool-cases (leb (key x) (key y))) [
    | inl e ↦ rw (e, insert_by) (p, h)
    | inr e ↦ rw (e, insert_by) (h.0, All-insert_by x ys p h.1)
  ]

  pub All-sorted_by : (xs : List A) → All P xs → All P (sorted_by key xs)
  unfolding sorted_by
  All-sorted_by [] h = tt
  All-sorted_by (x ∷ xs) h = All-insert_by x (sorted_by key xs) h.0 (All-sorted_by xs h.1)

-- In ascending order.
abbrev pub IsAscending : List ℕ → Type 0
IsAscending [] = Unit
IsAscending (x ∷ xs) = All (λ y. x ≤ y) xs × IsAscending xs

All-le : (x y : ℕ) (xs : List ℕ) → x ≤ y → All (λ z. y ≤ z) xs → All (λ z. x ≤ z) xs
All-le x y [] h k = tt
All-le x y (z ∷ zs) h k = (omega arith, All-le x y zs h k.1)

IsAscending-insert_by :
    (x : ℕ) (xs : List ℕ) → IsAscending xs → IsAscending (insert_by (λ o. o) x xs)
unfolding insert_by
IsAscending-insert_by x [] h = (tt, tt)
IsAscending-insert_by x (y ∷ ys) h = elim (Bool-cases (leb x y)) [
  | inl e ↦ let le : x ≤ y = ground arith in rw (e, insert_by) ((le, All-le x y ys le h.0), h)
  | inr e ↦
      let le : y ≤ x = ground arith in
      rw (e, insert_by)
        (All-insert_by (λ z. y ≤ z) (λ o. o) x ys le h.0, IsAscending-insert_by x ys h.1)
]

pub IsAscending-sorted_by : (xs : List ℕ) → IsAscending (sorted_by (λ o. o) xs)
unfolding sorted_by
IsAscending-sorted_by [] = tt
IsAscending-sorted_by (x ∷ xs) =
    IsAscending-insert_by x (sorted_by (λ o. o) xs) (IsAscending-sorted_by xs)

pub le_of_contains : (x y : ℕ) (xs : List ℕ) → All (λ z. x ≤ z) xs → contains xs y ≡ true → x ≤ y
le_of_contains x y [] h e = absurd (cc)
le_of_contains x y (z ∷ zs) h e = ground (arith, le_of_contains x y zs h.1)
