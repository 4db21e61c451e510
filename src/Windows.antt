-- ===== src/Windows.antt =====
-- faust/windows.py and faust/types/windows.py. Times are whole tenths of a second, after the tenth
-- that a window's end is short of its size; the step is positive.
pub mod Bounds
pub mod Aligned
use faust.Common.{
  ℕ, zero, suc, ◌+◌, ◌-◌, ◌*◌, ◌/◌, Bool, true, false, List, [], ◌∷◌, map, range, Option, none,
  some, if◌then◌else◌, ltb, nat_beq, not, Result, ok, err, value_error, check, ◌>>=◌, ◌>>◌,
}
use faust.Common.Int.{
  ℤ, pos, negsuc, pos_part, neg_part, sub_ℕ, ◌+ℤ◌, ◌-ℤ◌, ltb_ℤ, leb_ℤ, scale, floor_div,
}

-- `int(x)` of a time, in whole seconds: towards zero
abbrev pub whole_seconds : ℤ → ℤ
whole_seconds (pos n) = pos (n / 10)
whole_seconds (negsuc n) = sub_ℕ 0 (suc n / 10)

-- `range(start, stop, step)` for a positive step
unfoldable pub range_between : ℤ → ℤ → ℕ → List ℤ
unfolding ◌-ℤ◌ ◌+ℤ◌
range_between start stop step =
    map (λ i. start +ℤ pos (i * step)) (range ((pos_part (stop -ℤ start) + (step - 1)) / step))

pub record WindowRange : Type 0 where
  pub start : ℤ
  pub end : ℤ

-- `WindowRange_from_start`
abbrev pub from_start : ℤ → ℕ → WindowRange
from_start start size = record { start = start; end = start +ℤ pos size -ℤ pos 1 }

pub record HoppingWindow : Type 0 where
  pub size : ℕ
  pub step : ℕ
  pub expires : Option ℕ

-- `expires` is false to Python where it is zero.
abbrev pub or_none : Option ℕ → Option ℕ
or_none none = none
or_none (some zero) = none
or_none (some (suc n)) = some (suc n)

abbrev pub hopping_window : ℕ → ℕ → Option ℕ → HoppingWindow
hopping_window size step expires = record { size = size; step = step; expires = or_none expires }

abbrev pub tumbling_window : ℕ → Option ℕ → HoppingWindow
tumbling_window size expires = hopping_window size size expires

abbrev pub start_initial_range : HoppingWindow → ℤ → ℤ
start_initial_range w timestamp =
    let closest_step = scale (floor_div timestamp w.step) w.step in
    closest_step -ℤ pos w.size +ℤ pos w.step

abbrev pub earliest : HoppingWindow → ℤ → WindowRange
earliest w timestamp = from_start (start_initial_range w timestamp) w.size

abbrev pub current_start : HoppingWindow → ℤ → ℤ
current_start w timestamp =
    let start = start_initial_range w timestamp in
    start +ℤ scale (floor_div (timestamp -ℤ start) w.step) w.step

unfoldable pub current : HoppingWindow → ℤ → WindowRange
unfolding ◌-ℤ◌ ◌+ℤ◌
current w timestamp = from_start (current_start w timestamp) w.size

unfoldable pub delta : HoppingWindow → ℤ → ℕ → WindowRange
unfolding current
delta w timestamp d = current w (timestamp -ℤ pos d)

abbrev pub stale_before : HoppingWindow → ℤ → ℕ → ℤ
stale_before w latest_timestamp expires = (current w (latest_timestamp -ℤ pos expires)).start

unfoldable pub stale : HoppingWindow → ℤ → ℤ → Bool
unfolding current
stale w timestamp latest_timestamp = elim w.expires [
  | none ↦ false
  | some expires ↦ leb_ℤ timestamp (stale_before w latest_timestamp expires)
]

-- `ranges`: a step below one second is no step for `range`.
unfoldable pub ranges : HoppingWindow → ℤ → Result (List WindowRange)
unfolding range_between
ranges w timestamp = do
  check (not (nat_beq (w.step / 10) 0)) value_error
  let start = whole_seconds (start_initial_range w timestamp)
  let stop = whole_seconds timestamp +ℤ pos 1
  ok (map (λ s. from_start (scale s 10) w.size) (range_between start stop (w.step / 10)))

pub record SlidingWindow : Type 0 where
  pub before : ℕ
  pub after : ℕ
  pub expires : ℕ

abbrev pub sliding_current : SlidingWindow → ℤ → WindowRange
sliding_current w timestamp = record {
  start = timestamp -ℤ pos w.before;
  end = timestamp +ℤ pos w.after;
}

abbrev pub sliding_ranges : SlidingWindow → ℤ → List WindowRange
sliding_ranges w timestamp = sliding_current w timestamp ∷ []

abbrev pub sliding_delta : SlidingWindow → ℤ → ℕ → WindowRange
sliding_delta w timestamp d = sliding_current w (timestamp -ℤ pos d)

abbrev pub sliding_earliest : SlidingWindow → ℤ → WindowRange
sliding_earliest w timestamp = sliding_current w timestamp

unfoldable pub sliding_stale : SlidingWindow → ℤ → ℤ → Bool
sliding_stale w timestamp latest_timestamp =
    if nat_beq w.expires 0 then false else leb_ℤ timestamp (latest_timestamp -ℤ pos w.expires)
