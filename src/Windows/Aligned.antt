-- ===== src/Windows/Aligned.antt =====
-- The windows that a time is in, where size and step are whole seconds.
use mathlib.Core.Path.{subst}
use faust.Common.{◌↔◌}
use native.Mathlib.Nat.{le-div_iff_mul-le, div-lt_iff_lt-mul, mul-div_cancel_left}
use faust.Common.{
  ℕ, zero, suc, ◌+◌, ◌-◌, ◌*◌, ◌/◌, ◌≤◌, ◌<◌, ◌≡◌, refl, sym, ap, ◌∙◌, false, List, map, range_from,
  Option, some, arith, get_elem?, All, nat_beq, ok,
}
use faust.Common.Int.{
  ℤ, pos, negsuc, pos_part, neg_part, ◌+ℤ◌, ◌-ℤ◌, scale, floor_div, +ℤ_parts, -ℤ_parts, ℤ-ext,
}
use faust.Windows.{
  HoppingWindow, WindowRange, from_start, hopping_window, start_initial_range, whole_seconds,
  range_between, ranges,
}

-- The rounds of a range with step d over x numbers
rounds : (x d i : ℕ) → 0 < d → (i < (x + (d - 1)) / d) ↔ (i * d < x)
rounds x d i h =
    let fits = le-div_iff_mul-le {k = d} {x = suc i} {y = x + (d - 1)} h in
    let more : suc i * d ≡ i * d + d = omega arith in
    (λ below. omega (arith, fits.0 below, more, h), λ below. fits.1 (omega (arith, below, more, h)))

get_elem?-range_from :
    {A B : Type 0} (f : ℕ → A) (g : A → B) (s c i : ℕ)
    → i < c
    → get_elem? (map g (map f (range_from s c))) i ≡ some (g (f (s + i)))
get_elem?-range_from f g s zero i h = absurd (omega (arith, h))
get_elem?-range_from f g s (suc c) zero h = ap (λ (k : ℕ). some (g (f k))) (omega arith)
get_elem?-range_from f g s (suc c) (suc i) h =
    get_elem?-range_from f g (suc s) c i (omega (arith, h))
    ∙ ap (λ (k : ℕ). some (g (f k))) (omega arith)

All-range_from :
    {A B : Type 0} (P : B → Type 0) (f : ℕ → A) (g : A → B) (s c : ℕ)
    → ((i : ℕ) → i < c → P (g (f (s + i))))
    → All P (map g (map f (range_from s c)))
All-range_from P f g s zero h = tt
All-range_from P f g s (suc c) h = (
  subst (λ (k : ℕ). P (g (f k))) (omega arith) (h zero (omega arith)),
  All-range_from P f g (suc s) c
      (λ i b. subst (λ (k : ℕ). P (g (f k))) (omega arith) (h (suc i) (omega (arith, b)))),
)

whole_seconds_lem :
    (x : ℤ) (a b : ℕ)
    → pos_part x + 10 * b ≡ neg_part x + 10 * a
    → pos_part (whole_seconds x) + b ≡ neg_part (whole_seconds x) + a
whole_seconds_lem (pos n) a b h = omega (arith, h)
whole_seconds_lem (negsuc n) a b h = ground (arith, h)

scale_ten :
    (x : ℤ) → (pos_part (scale x 10) ≡ 10 * pos_part x) × (neg_part (scale x 10) ≡ 10 * neg_part x)
unfolding scale
scale_ten (pos n) = (omega arith, omega arith)
scale_ten (negsuc n) = (ground arith, ground arith)

below_pos_part : (x : ℤ) (k : ℕ) → (k < pos_part x) ↔ (neg_part x + k < pos_part x)
below_pos_part (pos n) k = (λ h. omega (arith, h), λ h. omega (arith, h))
below_pos_part (negsuc n) k = (λ h. absurd (omega (arith, h)), λ h. absurd (omega (arith, h)))

-- The window whose size is over at the m-th multiple of the step
abbrev pub window_over_at : HoppingWindow → ℕ → WindowRange
window_over_at w m = from_start (pos (m * w.step) -ℤ pos w.size) w.size

module _ (sz st n : ℕ) (expires : Option ℕ) (positive : 0 < st) where
  abbrev w : HoppingWindow
  w = hopping_window (10 * sz) (10 * st) expires

  abbrev q : ℕ
  q = n / (10 * st)

  abbrev first : ℤ
  first = whole_seconds (start_initial_range w (pos n))

  abbrev stop : ℤ
  stop = pos (n / 10) +ℤ pos 1

  first_lem : pos_part first + sz ≡ neg_part first + suc q * st
  unfolding floor_div scale
  first_lem =
      let e : q * (10 * st) + 10 * st ≡ 10 * (suc q * st) = omega arith in
      whole_seconds_lem (start_initial_range w (pos n)) (suc q * st) sz (
        omega (
          arith,
          e,
          -ℤ_parts (pos (q * (10 * st))) (pos (10 * sz)),
          +ℤ_parts (pos (q * (10 * st)) -ℤ pos (10 * sz)) (pos (10 * st)),
        ))

  item_lem :
      (i : ℕ)
      → from_start (scale (first +ℤ pos (i * st)) 10) (10 * sz) ≡ window_over_at w (suc q + i)
  item_lem i =
      let e : (suc q + i) * (10 * st) ≡ 10 * (suc q * st) + 10 * (i * st) = omega arith in
      let x = first +ℤ pos (i * st) in
      ap (λ s. from_start s (10 * sz))
        (ℤ-ext (scale x 10) (pos ((suc q + i) * (10 * st)) -ℤ pos (10 * sz)) (
          omega (
            arith,
            e,
            (scale_ten x).0,
            (scale_ten x).1,
            +ℤ_parts first (pos (i * st)),
            first_lem,
            -ℤ_parts (pos ((suc q + i) * (10 * st))) (pos (10 * sz)),
          )))

  rounds_lem :
      (i : ℕ)
      → (i < (pos_part (stop -ℤ first) + (st - 1)) / st) ↔ ((suc q + i) * (10 * st) ≤ n + 10 * sz)
  rounds_lem i =
      let e : (suc q + i) * (10 * st) ≡ 10 * (suc q * st) + 10 * (i * st) = omega arith in
      let r = rounds (pos_part (stop -ℤ first)) st i positive in
      let b = below_pos_part (stop -ℤ first) (i * st) in
      (
        λ below. omega (
          arith,
          b.0 (r.0 below),
          e,
          first_lem,
          -ℤ_parts stop first,
          +ℤ_parts (pos (n / 10)) (pos 1),
        ),
        λ within. r.1 (
            b.1 (
              omega (
                arith,
                within,
                e,
                first_lem,
                -ℤ_parts stop first,
                +ℤ_parts (pos (n / 10)) (pos 1),
              ))),
      )

  past_lem : (m : ℕ) → (n < m * (10 * st)) ↔ (suc q ≤ m)
  past_lem m =
      let d = div-lt_iff_lt-mul {k = 10 * st} {x = n} {y = m} (omega (arith, positive)) in
      (λ h. omega (arith, d.1 h), λ h. d.0 (omega (arith, h)))

-- Where size and step are whole seconds, the step is positive and the time is not below zero:
-- `ranges` returns. Every window that it gives is over at a multiple of the step that is after the
-- time and at most the size after it, and it gives the window of each such multiple.
pub ranges_lem :
    (sz st n : ℕ) (expires : Option ℕ)
    → 0 < st
    → (found : List WindowRange) × (ranges (hopping_window (10 * sz) (10 * st) expires) (pos n)
        ≡ ok found)
      × All
          (λ r.
            (m : ℕ) × (r ≡ window_over_at (hopping_window (10 * sz) (10 * st) expires) m)
            × (n < m * (10 * st))
            × (m * (10 * st) ≤ n + 10 * sz))
          found
      × ((m : ℕ)
          → n < m * (10 * st)
          → m * (10 * st) ≤ n + 10 * sz
          → (i : ℕ) × (get_elem? found i
              ≡ some (window_over_at (hopping_window (10 * sz) (10 * st) expires) m)))
unfolding ranges range_between
ranges_lem sz st n expires h =
    let w = hopping_window (10 * sz) (10 * st) expires in
    let first = whole_seconds (start_initial_range w (pos n)) in
    let stop = pos (n / 10) +ℤ pos 1 in
    let q = n / (10 * st) in
    let g = λ (s : ℤ). from_start (scale s 10) (10 * sz) in
    let f = λ (i : ℕ). first +ℤ pos (i * st) in
    let c = (pos_part (stop -ℤ first) + (st - 1)) / st in
    let seconds : 10 * st / 10 ≡ st = mul-div_cancel_left st (omega arith) in
    let some_step : nat_beq st 0 ≡ false = ground (arith, h) in
    (
      map g (range_between first stop st),
      rw (seconds, some_step) refl,
      All-range_from
          (λ r.
            (m : ℕ) × (r ≡ window_over_at w m)
            × (n < m * (10 * st))
            × (m * (10 * st) ≤ n + 10 * sz))
          f g 0 c
          (λ i below. (
            suc q + i,
            item_lem sz st n expires h (0 + i)
                ∙ ap (λ (k : ℕ). window_over_at w (suc q + k)) (omega arith),
            (past_lem sz st n expires h (suc q + i)).1 (omega arith),
            (rounds_lem sz st n expires h i).0 below,
          )),
      λ m after within.
          let i = m - suc q in
          let ahead = (past_lem sz st n expires h m).0 after in
          let same : suc q + i ≡ m = omega (arith, ahead) in
          (
            i,
            get_elem?-range_from f g 0 c i (
                  (rounds_lem sz st n expires h i).1
                    (subst (λ (k : ℕ). k * (10 * st) ≤ n + 10 * sz) (sym same) within))
                ∙ ap some (
                    item_lem sz st n expires h (0 + i)
                    ∙ ap (λ (k : ℕ). window_over_at w k) (omega (arith, same))),
          ),
    )
