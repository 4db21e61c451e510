-- ===== src/Tests/WindowRuns.antt =====
-- Windows of ten seconds every five seconds.
use faust.Common.{ℕ, ◌*◌, ◌+◌, ◌≤◌, ◌<◌, ◌≡◌, List, some, arith, ok, All, get_elem?}
use faust.Common.Int.{pos, ◌+ℤ◌, ◌≤ℤ◌}
use faust.Windows.{HoppingWindow, WindowRange, hopping_window, current, ranges}
use faust.Windows.Aligned.{window_over_at, ranges_lem}
use faust.Windows.Bounds.{current-bounds}

abbrev hopping : HoppingWindow
hopping = hopping_window (10 * 10) (10 * 5) (some 600)

ranges_example :
    (found : List WindowRange) × (ranges hopping (pos 123) ≡ ok found)
    × All
        (λ r.
          (m : ℕ) × (r ≡ window_over_at hopping m)
          × (123 < m * (10 * 5))
          × (m * (10 * 5) ≤ 123 + 10 * 10))
        found
    × ((m : ℕ)
        → 123 < m * (10 * 5)
        → m * (10 * 5) ≤ 123 + 10 * 10
        → (i : ℕ) × (get_elem? found i ≡ some (window_over_at hopping m)))
ranges_example = ranges_lem 10 5 123 (some 600) (omega arith)

current-bounds_example :
    ((current hopping (pos 123)).start ≤ℤ pos 123)
    × (pos 123 +ℤ pos 1 ≤ℤ (current hopping (pos 123)).start +ℤ pos 50)
current-bounds_example = current-bounds hopping (pos 123) (omega arith)
