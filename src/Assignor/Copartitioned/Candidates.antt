-- ===== src/Assignor/Copartitioned/Candidates.antt =====
-- `_find_promotable_standby` and `_find_round_robin_assignable`: one full turn of the candidates.
use mathlib.Core.List.{append_assoc, append-nil}
use faust.Common.{
  ℕ, ◌≡◌, refl, sym, ap, ◌∙◌, Bool, true, false, ◌||◌, List, [], ◌∷◌, ◌++◌, arith, nat_eq, ok,
  length, contains, length-append, Bool-cases, inl, inr, Option, none, some,
}
use faust.Assignor.Copartitioned.{find_candidate}

contains-append :
    (xs ys : List ℕ) (j : ℕ) → contains (xs ++ ys) j ≡ (contains xs j || contains ys j)
contains-append [] ys j = refl
contains-append (x ∷ xs) ys j = ground (arith, contains-append xs ys j)

contains-rotate : (i j : ℕ) (xs : List ℕ) → contains (xs ++ i ∷ []) j ≡ contains (i ∷ xs) j
contains-rotate i j xs = ground (arith, contains-append xs (i ∷ []) j)

-- The turn over `xs`, which `ys` follows.
find_candidate_turn :
    (test : ℕ → Bool) (xs ys : List ℕ)
    → (o : Option ℕ) × (zs : List ℕ) × (find_candidate test (length xs) (xs ++ ys) ≡ ok (o, zs))
      × ((i : ℕ) → o ≡ some i → test i ≡ true)
      × (o ≡ none → (i : ℕ) → contains xs i ≡ true → test i ≡ false)
      × (length zs ≡ length (xs ++ ys))
      × ((j : ℕ) → contains zs j ≡ contains (xs ++ ys) j)
unfolding find_candidate
find_candidate_turn test [] ys = (none, ys, refl, λ i e. cc, λ e i h. cc, refl, λ j. refl)
find_candidate_turn test (x ∷ xs) ys = elim (Bool-cases (test x)) [
  | inl passed ↦ (
    some x,
    (xs ++ ys) ++ x ∷ [],
    rw (passed, find_candidate),
    λ i e. ground arith,
    λ e. cc,
    omega (arith, length-append {0} (xs ++ ys) (x ∷ [])),
    λ j. contains-rotate x j (xs ++ ys),
  )
  | inr failed ↦
      let (o, zs, found, hit, miss, size, same) = find_candidate_turn test xs (ys ++ x ∷ []) in
      let assoc : (xs ++ ys) ++ x ∷ [] ≡ xs ++ (ys ++ x ∷ []) = append_assoc xs ys (x ∷ []) in
      (
        o,
        zs,
        rw (failed, find_candidate, assoc) found,
        hit,
        λ e i h. ground (arith, miss e i),
        omega (arith, size, ap length assoc, length-append {0} (xs ++ ys) (x ∷ [])),
        λ j. same j ∙ ap (λ l. contains l j) (sym assoc) ∙ contains-rotate x j (xs ++ ys),
      )
]

-- One full turn: it finds a candidate that passes the test unless none does, and it keeps the
-- candidates.
pub find_candidate_lem :
    (test : ℕ → Bool) (n : ℕ) (xs : List ℕ)
    → length xs ≡ n
    → (o : Option ℕ) × (zs : List ℕ) × (find_candidate test n xs ≡ ok (o, zs))
      × ((i : ℕ) → o ≡ some i → test i ≡ true)
      × (o ≡ none → (i : ℕ) → contains xs i ≡ true → test i ≡ false)
      × (length zs ≡ length xs)
      × ((j : ℕ) → contains zs j ≡ contains xs j)
find_candidate_lem test n xs e =
    let (o, zs, found, hit, miss, size, same) = find_candidate_turn test xs [] in
    let nil = append-nil xs in
    (
      o,
      zs,
      cc (found, e, nil),
      hit,
      miss,
      size ∙ ap length nil,
      λ j. same j ∙ ap (λ l. contains l j) nil,
    )
