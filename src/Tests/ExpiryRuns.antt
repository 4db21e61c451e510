-- ===== src/Tests/ExpiryRuns.antt =====
-- A table of two keys in windows that end at 10 and at 20, in partition 3.
use faust.Common.{
  ℕ, ◌+◌, ◌≡◌, refl, Bool, true, false, [], ◌∷◌, none, arith, if◌then◌else◌, nat_eq, nat_beq,
  contains,
}
use faust.Common.Int.{ℤ, pos, leb_ℤ, leb_ℤ_iff}
use faust.Common.Dict.{get}
use faust.Windows.{WindowRange}
use faust.Tables.{Collection, maybe_set_key_ttl, maybe_del_key_ttl, del_old_keys}
use faust.Tables.Expiry.{slot, IsDownward, keys_at}
use faust.Tables.Slots.{slot_eq}
use faust.Tables.Tracked.{IsTracked, key_ttl-IsTracked}
use faust.Tables.Closing.{del_old_keys-tracked}
use faust.Tables.Windowed.{KeyedTable}

abbrev range_of : ℕ → WindowRange
range_of key = record { start = pos key; end = pos (key + 10) }

abbrev empty_table : Collection ℕ ℕ
empty_table = record {
  entries = (0, 5) ∷ (10, 6) ∷ [];
  partition_timestamps = [];
  partition_timestamp_keys = [];
  partition_latest_timestamp = [];
  last_closed_window = pos 0;
  closed = [];
}

abbrev empty_tracked : IsTracked range_of empty_table
unfolding get
empty_tracked = (tt, tt, λ p t k there. absurd (cc))

key_ttl-IsTracked_example :
    IsTracked range_of (maybe_set_key_ttl range_of true empty_table 0 3)
    × IsTracked range_of (maybe_del_key_ttl range_of true empty_table 0 3)
key_ttl-IsTracked_example = key_ttl-IsTracked range_of true empty_table 0 3 empty_tracked

abbrev both : Collection ℕ ℕ
both = maybe_set_key_ttl range_of true (maybe_set_key_ttl range_of true empty_table 10 3) 0 3

abbrev both_tracked : IsTracked range_of both
both_tracked =
    (key_ttl-IsTracked range_of true (maybe_set_key_ttl range_of true empty_table 10 3) 0 3
      (key_ttl-IsTracked range_of true empty_table 10 3 empty_tracked).0).0

abbrev is_old : ℤ → Bool
is_old t = leb_ℤ t (pos 15)

is_old-IsDownward : IsDownward is_old
is_old-IsDownward a b h old =
    (leb_ℤ_iff a (pos 15)).1 (omega (arith, h, (leb_ℤ_iff b (pos 15)).0 old))

del_old_keys-tracked_example :
    (is_old (pos 10) ≡ true
      → contains (keys_at both (slot 3 (pos 10))) 0 ≡ true
      → get (del_old_keys range_of is_old both).entries 0 ≡ none)
    × (is_old (pos 10) ≡ false
        → get (del_old_keys range_of is_old both).entries 0 ≡ get both.entries 0)
del_old_keys-tracked_example =
    del_old_keys-tracked range_of is_old both 3 0 is_old-IsDownward both_tracked

abbrev function_table : KeyedTable (ℕ → ℕ) ℕ ℕ nat_eq
function_table = record {
  get_key = λ t k. t k;
  set_key = λ t k v j. if nat_beq k j then v else t j;
  get-set_key = λ t k j v. refl;
}

abbrev plus : ℕ → ℕ → ℕ
plus a b = a + b

abbrev zeros : ℕ → ℕ
zeros k = 0
