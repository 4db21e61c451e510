-- ===== src/Common/Members.antt =====
-- The members of sets kept as lists.
use mathlib.Core.Path.{◌≡◌, refl, ap}
use mathlib.Core.Logic.{inl, inr}
use mathlib.Core.Bool.{Bool, true, false, not, ◌&&◌, ◌||◌}
use mathlib.Core.List.{List, [], ◌∷◌, ◌++◌}
use native.Mathlib.Omega.{arith}
use faust.Common.Tests.{Eq, ◌==◌, Bool-cases}
use Prim.Native.Nat.{suc, ◌+◌}
use faust.Common.Lists.{contains, include, union, difference, keep, length, All}

module _ {ℓ} {A : Type ℓ} ⦃e : Eq A⦄ where
  pub contains-append :
      (xs ys : List A) (j : A) → contains (xs ++ ys) j ≡ (contains xs j || contains ys j)
  contains-append [] ys j = refl
  contains-append (x ∷ xs) ys j = ground (arith, contains-append xs ys j)

  contains_same : (xs : List A) (x y : A) → x ≡ y → contains xs x ≡ contains xs y
  contains_same xs x y p = ap (contains xs) p

  pub contains-include :
      (xs : List A) (a j : A) → contains (include xs a) j ≡ (contains xs j || a == j)
  contains-include xs a j =
      ground (arith, contains-append xs (a ∷ []) j, contains_same xs a j, e.beq_iff a j)

  pub contains-union :
      (xs ys : List A) (j : A) → contains (union xs ys) j ≡ (contains xs j || contains ys j)
  contains-union xs [] j = ground arith
  contains-union xs (y ∷ ys) j =
      ground (arith, contains-union (include xs y) ys j, contains-include xs y j)

  pub contains-keep :
      (p : A → Bool) (xs : List A) (j : A) → contains (keep p xs) j ≡ (contains xs j && p j)
  contains-keep p [] j = refl
  contains-keep p (x ∷ xs) j = ground (arith, contains-keep p xs j, e.beq_iff x j, same)
    where
      same : x ≡ j → p x ≡ p j
      same q = ap p q

  pub contains-difference :
      (xs ys : List A) (j : A)
      → contains (difference xs ys) j ≡ (contains xs j && not (contains ys j))
  contains-difference xs ys j = contains-keep (λ x. not (contains ys x)) xs j

  -- No member is there twice.
  abbrev pub IsSetList : List A → Type 0
  IsSetList [] = Unit
  IsSetList (x ∷ xs) = (contains xs x ≡ false) × IsSetList xs

  pub IsSetList-snoc :
      (xs : List A) (x : A) → contains xs x ≡ false → IsSetList xs → IsSetList (xs ++ x ∷ [])
  IsSetList-snoc [] x n h = (refl, tt)
  IsSetList-snoc (y ∷ xs) x n h = (
    ground (arith, contains-append xs (x ∷ []) y, h.0, n, e.beq_iff x y, e.beq_iff y x),
    IsSetList-snoc xs x (ground (arith, n)) h.1,
  )

  keep-IsSetList : (p : A → Bool) (xs : List A) → IsSetList xs → IsSetList (keep p xs)
  keep-IsSetList p [] h = tt
  keep-IsSetList p (x ∷ xs) h = elim (Bool-cases (p x)) [
    | inl y ↦ rw y (ground (arith, contains-keep p xs x, h.0), keep-IsSetList p xs h.1)
    | inr n ↦ rw n (keep-IsSetList p xs h.1)
  ]

  keep_others : (d : A) (xs : List A) → contains xs d ≡ false → keep (λ x. not (d == x)) xs ≡ xs
  keep_others d [] n = refl
  keep_others d (x ∷ xs) n = ground (arith, keep_others d xs, e.beq_iff x d, e.beq_iff d x)

  length-keep_others :
      (d : A) (xs : List A)
      → contains xs d ≡ true
      → IsSetList xs
      → suc (length (keep (λ x. not (d == x)) xs)) ≡ length xs
  length-keep_others d [] c h = absurd (cc)
  length-keep_others d (x ∷ xs) c h = elim (Bool-cases (d == x)) [
    | inl y ↦
        let same : d ≡ x = (e.beq_iff d x).0 y in
        rw y (ap suc (ap length (keep_others d xs (rw same h.0))))
    | inr n ↦
        rw n (
          ap suc (length-keep_others d xs (ground (arith, c, n, e.beq_iff x d, e.beq_iff d x)) h.1))
  ]

  keep_without :
      (d : A) (ds xs : List A)
      → keep (λ x. not (contains (d ∷ ds) x)) xs
        ≡ keep (λ x. not (d == x)) (keep (λ x. not (contains ds x)) xs)
  keep_without d ds [] = refl
  keep_without d ds (x ∷ xs) = ground (arith, keep_without d ds xs)

  keep_everything : (xs : List A) → keep (λ x. not (contains [] x)) xs ≡ xs
  keep_everything [] = refl
  keep_everything (x ∷ xs) = ap (λ ys. x ∷ ys) (keep_everything xs)

  -- What is left of a set without some of its members
  pub length-difference :
      (xs ds : List A)
      → IsSetList xs
      → IsSetList ds
      → All (λ d. contains xs d ≡ true) ds
      → length (keep (λ x. not (contains ds x)) xs) + length ds ≡ length xs
  length-difference xs [] h k a = omega (arith, ap length (keep_everything xs))
  length-difference xs (d ∷ ds) h k a =
      let rest = keep (λ x. not (contains ds x)) xs in
      let there : contains rest d ≡ true =
        ground (arith, contains-keep (λ x. not (contains ds x)) xs d, a.0, k.0) in
      let fewer =
        length-keep_others d rest there (keep-IsSetList (λ x. not (contains ds x)) xs h) in
      omega (arith, fewer, ap length (keep_without d ds xs), length-difference xs ds h k.1 a.1)
