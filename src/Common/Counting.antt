-- ===== src/Common/Counting.antt =====
-- Occurrences in lists of numbers, and sums over a range.
use Prim.Native.Nat.{ℕ, zero, suc, ◌+◌, ◌≤◌, ◌<◌}
use mathlib.Core.Path.{◌≡◌, refl}
use mathlib.Core.Bool.{Bool, true, false}
use mathlib.Core.List.{List, [], ◌∷◌, ◌++◌}
use native.Mathlib.Omega.{arith}
use faust.Common.Tests.{nat_beq, nat_eq}
use faust.Common.Lists.{length, All, contains}

abbrev pub one_if : Bool → ℕ
one_if true = 1
one_if false = 0

-- `Counter(xs)[p]`
unfoldable pub count : ℕ → List ℕ → ℕ
count p [] = 0
count p (x ∷ xs) = one_if (nat_beq x p) + count p xs

pub count-append : (p : ℕ) (xs ys : List ℕ) → count p (xs ++ ys) ≡ count p xs + count p ys
unfolding count
count-append p [] ys = omega arith
count-append p (x ∷ xs) ys = omega (arith, count-append p xs ys)

-- f start + ... + f (start + n - 1)
unfoldable pub sum_range : (ℕ → ℕ) → ℕ → ℕ → ℕ
sum_range f start zero = 0
sum_range f start (suc n) = f start + sum_range f (suc start) n

sum_range_zero : (x start n : ℕ) → x < start → sum_range (λ p. one_if (nat_beq x p)) start n ≡ 0
unfolding sum_range
sum_range_zero x start zero h = refl
sum_range_zero x start (suc n) h = ground (arith, sum_range_zero x (suc start) n)

sum_range_single :
    (x start n : ℕ) → start ≤ x → x < start + n → sum_range (λ p. one_if (nat_beq x p)) start n ≡ 1
unfolding sum_range
sum_range_single x start zero h k = absurd (omega arith)
sum_range_single x start (suc n) h k =
    ground (arith, sum_range_zero x (suc start) n, sum_range_single x (suc start) n)

pub sum_range-add :
    (f g : ℕ → ℕ) (start n : ℕ)
    → sum_range (λ p. f p + g p) start n ≡ sum_range f start n + sum_range g start n
unfolding sum_range
sum_range-add f g start zero = omega arith
sum_range-add f g start (suc n) = omega (arith, sum_range-add f g (suc start) n)

sum_range_null : (start n : ℕ) → sum_range (λ p. 0) start n ≡ 0
unfolding sum_range
sum_range_null start zero = refl
sum_range_null start (suc n) = omega (arith, sum_range_null (suc start) n)

-- Numbers below `n` are as many as their occurrences, value by value.
pub length-eq-sum_count :
    (n : ℕ) (xs : List ℕ) → All (λ x. x < n) xs → sum_range (λ p. count p xs) 0 n ≡ length xs
unfolding count
length-eq-sum_count n [] h = sum_range_null 0 n
length-eq-sum_count n (x ∷ xs) h = omega (
  arith,
  sum_range-add (λ p. one_if (nat_beq x p)) (λ p. count p xs) 0 n,
  sum_range_single x 0 n,
  length-eq-sum_count n xs h.1,
)

-- What does not occur is not there.
pub contains-count : (p : ℕ) (xs : List ℕ) → count p xs ≡ 0 → contains xs p ≡ false
unfolding count
contains-count p [] h = refl
contains-count p (x ∷ xs) h = ground (arith, contains-count p xs)

pub contains_of_count : (p : ℕ) (xs : List ℕ) → 0 < count p xs → contains xs p ≡ true
unfolding count
contains_of_count p [] h = absurd (omega arith)
contains_of_count p (x ∷ xs) h = ground (arith, contains_of_count p xs)

pub count_of_contains : (p : ℕ) (xs : List ℕ) → contains xs p ≡ true → 0 < count p xs
unfolding count
count_of_contains p [] h = cc
count_of_contains p (x ∷ xs) h = ground (arith, count_of_contains p xs)

pub count_of_absent : (p : ℕ) (xs : List ℕ) → contains xs p ≡ false → count p xs ≡ 0
unfolding count
count_of_absent p [] h = refl
count_of_absent p (x ∷ xs) h = ground (arith, count_of_absent p xs)

pub sum_range_ones :
    (f g : ℕ → ℕ) (start n : ℕ)
    → ((q : ℕ) → start ≤ q → q < start + n → f q + g q ≡ 1)
    → sum_range f start n + sum_range g start n ≡ n
unfolding sum_range
sum_range_ones f g start zero h = omega arith
sum_range_ones f g start (suc n) h = omega (
  arith,
  h start (omega arith) (omega arith),
  sum_range_ones f g (suc start) n (λ q a b. h q (omega arith) (omega arith)),
)
