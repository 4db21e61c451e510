-- ===== src/Windows/Bounds.antt =====
-- Where the latest window of a time lies, and which times are stale.
use faust.Common.{ℕ, ◌<◌, ◌≡◌, refl, sym, ◌∙◌, true, some, arith}
use faust.Common.Int.{
  ℤ, pos, ◌+ℤ◌, ◌-ℤ◌, ◌≤ℤ◌, leb_ℤ, leb_ℤ_iff, scale, floor_div, floor_div_lem, +ℤ_parts, -ℤ_parts,
}
use faust.Windows.{HoppingWindow, start_initial_range, current_start, current, stale}

current_start-bounds :
    (w : HoppingWindow) (t : ℤ)
    → 0 < w.step
    → (current_start w t ≤ℤ t) × (t +ℤ pos 1 ≤ℤ current_start w t +ℤ pos w.step)
current_start-bounds w t h =
    let start = start_initial_range w t in
    let x = t -ℤ start in
    let back = scale (floor_div x w.step) w.step in
    let low = floor_div_lem x w.step h in
    (
      omega (arith, low.0, -ℤ_parts t start, +ℤ_parts start back),
      omega (
        arith,
        low.1,
        -ℤ_parts t start,
        +ℤ_parts start back,
        +ℤ_parts t (pos 1),
        +ℤ_parts (start +ℤ back) (pos w.step),
      ),
    )

-- Where the step is positive, the window that `current` gives for a time starts at the time or
-- before it, and less than a step before it.
pub current-bounds :
    (w : HoppingWindow) (t : ℤ)
    → 0 < w.step
    → ((current w t).start ≤ℤ t) × (t +ℤ pos 1 ≤ℤ (current w t).start +ℤ pos w.step)
unfolding current
current-bounds w t h = current_start-bounds w t h

stale_lem :
    (w : HoppingWindow) (t latest : ℤ) (e : ℕ)
    → w.expires ≡ some e
    → stale w t latest ≡ leb_ℤ t (current_start w (latest -ℤ pos e))
unfolding stale current
stale_lem w t latest e has = rw has refl

-- Where the step is positive and the window expires after e: a time that is stale is e or more
-- behind the latest time, and a time that is e and a step or more behind it is stale.
pub stale-bounds :
    (w : HoppingWindow) (t latest : ℤ) (e : ℕ)
    → 0 < w.step
    → w.expires ≡ some e
    → (stale w t latest ≡ true → t +ℤ pos e ≤ℤ latest)
      × (t +ℤ pos e +ℤ pos w.step ≤ℤ latest → stale w t latest ≡ true)
stale-bounds w t latest e h has =
    let b = current_start-bounds w (latest -ℤ pos e) h in
    let before = current_start w (latest -ℤ pos e) in
    let test = leb_ℤ_iff t before in
    let same = stale_lem w t latest e has in
    (
      λ yes_stale.
          omega (
            arith,
            test.0 (sym same ∙ yes_stale),
            b.0,
            -ℤ_parts latest (pos e),
            +ℤ_parts t (pos e),
          ),
      λ old.
          same
          ∙ test.1 (
              omega (
                arith,
                old,
                b.1,
                -ℤ_parts latest (pos e),
                +ℤ_parts t (pos e),
                +ℤ_parts (t +ℤ pos e) (pos w.step),
                +ℤ_parts before (pos w.step),
                +ℤ_parts (latest -ℤ pos e) (pos 1),
              )),
    )
