-- ===== src/Assignor/Sets.antt =====
-- Sets of partition numbers, as the assignor uses them: lists without repetition, where
-- `set.pop` takes the element that a function `choose` names, since Python leaves that open.
use faust.Common.{
  ℕ, zero, suc, ◌+◌, ◌≤◌, ◌<◌, ◌≡◌, refl, true, false, List, [], ◌∷◌, ◌++◌, arith, ltb,
  if◌then◌else◌, ◌==◌, nat_eq, nat_beq, Result, ok, err, key_error, ◌>>=◌, length, contains, All,
  Bool-cases, inl, inr,
}
use faust.Common.Counting.{count, one_if}

-- `s.add(x)`
unfoldable pub add : List ℕ → ℕ → List ℕ
add xs x = if contains xs x then xs else xs ++ x ∷ []

-- `s.remove(x)`
unfoldable pub remove : List ℕ → ℕ → Result (List ℕ)
remove [] x = err key_error
remove (y ∷ ys) x = if y == x then ok ys else (do rest ← remove ys x; ok (y ∷ rest))

-- `s.pop()`, the element at a position; a position past the end names the last element.
unfoldable pub pop_at : List ℕ → ℕ → Result (ℕ × List ℕ)
pop_at [] i = err key_error
pop_at (x ∷ []) i = ok (x, [])
pop_at (x ∷ y ∷ xs) zero = ok (x, y ∷ xs)
pop_at (x ∷ y ∷ xs) (suc i) = pop_at (y ∷ xs) i >>= λ (z, rest). ok (z, x ∷ rest)

unfoldable pub pop : (List ℕ → ℕ) → List ℕ → Result (ℕ × List ℕ)
unfolding pop_at
pop choose xs = pop_at xs (choose xs)

-- `while len(s) > capacity: s.pop()`
unfoldable pub pop_down : (List ℕ → ℕ) → ℕ → ℕ → List ℕ → Result (List ℕ)
unfolding pop
pop_down choose zero capacity xs = ok xs
pop_down choose (suc fuel) capacity xs = elim (ltb capacity (length xs)) [
  | true ↦ pop choose xs >>= λ (x, rest). pop_down choose fuel capacity rest
  | false ↦ ok xs
]

abbrev pub IsBelow : ℕ → List ℕ → Type 0
IsBelow n xs = All (λ x. x < n) xs

pub IsBelow-append : (n : ℕ) (xs ys : List ℕ) → IsBelow n xs → IsBelow n ys → IsBelow n (xs ++ ys)
IsBelow-append n [] ys h k = k
IsBelow-append n (x ∷ xs) ys h k = (h.0, IsBelow-append n xs ys h.1 k)

-- Removing a member succeeds, takes one occurrence of it and nothing else.
pub count-remove :
    (p n : ℕ) (xs : List ℕ)
    → 0 < count p xs
    → (ys : List ℕ) × (remove xs p ≡ ok ys)
      × (suc (length ys) ≡ length xs)
      × ((q : ℕ) → count q ys + one_if (nat_beq p q) ≡ count q xs)
      × (IsBelow n xs → IsBelow n ys)
unfolding remove count
count-remove p n [] h = absurd (omega arith)
count-remove p n (x ∷ xs) h = elim (Bool-cases (x == p)) [
  | inl e ↦ (xs, rw (e, remove), refl, λ q. ground arith, λ b. b.1)
  | inr e ↦
      let (ys, removed, size, counts, below) = count-remove p n xs (ground arith) in
      (x ∷ ys, ground arith, omega arith, λ q. ground (arith, counts q), λ b. (b.0, below b.1))
]

pop_at_size :
    (n x : ℕ) (xs : List ℕ) (i : ℕ)
    → (y : ℕ) × (ys : List ℕ) × (pop_at (x ∷ xs) i ≡ ok (y, ys))
      × (length ys ≡ length xs)
      × (IsBelow n (x ∷ xs) → IsBelow n ys)
unfolding pop_at
pop_at_size n x [] i = (x, [], refl, refl, λ b. b.1)
pop_at_size n x (z ∷ xs) zero = (x, z ∷ xs, refl, refl, λ b. b.1)
pop_at_size n x (z ∷ xs) (suc i) =
    let (y, ys, popped, size, below) = pop_at_size n z xs i in
    (y, x ∷ ys, rw popped, omega arith, λ b. (b.0, below b.1))

-- The loop of `unassign_extras` ends, at the capacity or below.
pub pop_down_size :
    (choose : List ℕ → ℕ) (fuel capacity n : ℕ) (xs : List ℕ)
    → length xs ≤ fuel + capacity
    → (ys : List ℕ) × (pop_down choose fuel capacity xs ≡ ok ys)
      × (length ys ≤ capacity)
      × (IsBelow n xs → IsBelow n ys)
unfolding pop_down pop
pop_down_size choose zero capacity n xs h = (xs, refl, omega arith, λ b. b)
pop_down_size choose (suc fuel) capacity n [] h = ([], ground arith, omega arith, λ b. b)
pop_down_size choose (suc fuel) capacity n (x ∷ xs) h =
    elim (Bool-cases (ltb capacity (suc (length xs)))) [
      | inl more ↦
          let (y, ys, popped, size, below) = pop_at_size n x xs (choose (x ∷ xs)) in
          let (zs, done, small, kept) = pop_down_size choose fuel capacity n ys (omega arith) in
          (zs, ground arith, small, λ b. kept (below b))
      | inr enough ↦ (x ∷ xs, ground arith, ground arith, λ b. b)
    ]
