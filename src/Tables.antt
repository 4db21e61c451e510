-- ===== src/Tables.antt =====
-- faust/tables/base.py: the expiry of the keys of a windowed table. A key is a pair of a key and a
-- window's range; its range is a function of it. The heap of a partition is its list in order,
-- smallest first, and the clock stands still while the old keys are deleted.
pub mod Slots
pub mod Expiry
pub mod Heaps
pub mod Tracked
pub mod Closing
pub mod Windowed
use faust.Common.{
  ℕ, ◌≡◌, Bool, true, false, not, ◌&&◌, ◌||◌, List, [], ◌∷◌, ◌++◌, Option, none, some,
  if◌then◌else◌, Eq, ◌==◌, nat_eq, contains, include, keep, any,
}
use faust.Common.Int.{ℤ, pos, leb_ℤ, max_ℤ}
use faust.Common.Dict.{Dict, get, put, remove}
use faust.Windows.{WindowRange}
use faust.Tables.Slots.{Slot, slot_eq}

pub record Collection (K : Type 0) (V : Type 0) : Type 0 where
  pub entries : Dict K V
  pub partition_timestamps : Dict ℕ (List ℤ)
  pub partition_timestamp_keys : Dict Slot (List K)
  pub partition_latest_timestamp : Dict ℕ ℤ
  pub last_closed_window : ℤ
  -- The calls of `on_window_close`
  pub closed : List (K × Option V)

-- `heappush`
unfoldable pub heappush : List ℤ → ℤ → List ℤ
heappush [] t = t ∷ []
heappush (s ∷ heap) t = if leb_ℤ t s then t ∷ s ∷ heap else s ∷ heappush heap t

abbrev pub heap_or_empty : Option (List ℤ) → List ℤ
heap_or_empty none = []
heap_or_empty (some heap) = heap

abbrev pub latest_or_zero : Option ℤ → ℤ
latest_or_zero none = pos 0
latest_or_zero (some t) = t

abbrev pub keys_or_empty : {K : Type 0} → Option (List K) → List K
keys_or_empty none = []
keys_or_empty (some ks) = ks

module _ {K : Type 0} (range_of : K → WindowRange) where
  abbrev pub slot_of : ℕ → K → Slot
  slot_of partition key = record { partition = partition; end = (range_of key).end }

  abbrev pub latest_start : ℤ → List K → ℤ
  latest_start last [] = last
  latest_start last (key ∷ ks) = latest_start (max_ℤ last (range_of key).start) ks

module _ {K V : Type 0} ⦃keys : Eq K⦄ (range_of : K → WindowRange) where
  -- `expires`: the table has a window, and the window expires.
  unfoldable pub maybe_set_key_ttl : Bool → Collection K V → K → ℕ → Collection K V
  unfolding heappush
  maybe_set_key_ttl expires c key partition =
      let range_end = (range_of key).end in
      let heap = heap_or_empty (get c.partition_timestamps partition) in
      let latest = latest_or_zero (get c.partition_latest_timestamp partition) in
      let slot = slot_of range_of partition key in
      if expires
      then record c {
        partition_timestamps = put c.partition_timestamps partition (heappush heap range_end);
        partition_latest_timestamp =
            put c.partition_latest_timestamp partition (max_ℤ latest range_end);
        partition_timestamp_keys =
            put c.partition_timestamp_keys slot
              (include (keys_or_empty (get c.partition_timestamp_keys slot)) key);
      }
      else c

  unfoldable pub maybe_del_key_ttl : Bool → Collection K V → K → ℕ → Collection K V
  maybe_del_key_ttl expires c key partition =
      let slot = slot_of range_of partition key in
      if expires
      then elim (get c.partition_timestamp_keys slot) [
        | none ↦ c
        | some ks ↦ record c {
          partition_timestamp_keys =
              put c.partition_timestamp_keys slot (keep (λ k. not (k == key)) ks);
        }
      ]
      else c

  -- `for key in keys_to_remove`
  unfoldable pub close_each : Collection K V → List K → Collection K V
  close_each c [] = c
  close_each c (key ∷ ks) =
      close_each
        (record c {
          entries = remove c.entries key;
          closed = c.closed ++ (key, get c.entries key) ∷ [];
        })
        ks

  -- The keys of a timestamp that was popped
  unfoldable pub close_slot : Collection K V → Slot → Collection K V
  unfolding close_each
  close_slot c slot =
      let ks = keys_or_empty (get c.partition_timestamp_keys slot) in
      let popped = record c { partition_timestamp_keys = remove c.partition_timestamp_keys slot } in
      record (close_each popped ks) {
        last_closed_window = latest_start range_of c.last_closed_window ks;
      }

  -- `while timestamps and window.stale(timestamps[0], ...)`: what is left of the heap
  unfoldable pub expire_heap : (ℤ → Bool) → ℕ → Collection K V → List ℤ → Collection K V × List ℤ
  unfolding close_slot
  expire_heap is_stale partition c [] = (c, [])
  expire_heap is_stale partition c (t ∷ heap) =
      let rest =
        expire_heap is_stale partition (close_slot c (record { partition = partition; end = t }))
          heap in
      if is_stale t then rest else (c, t ∷ heap)

  unfoldable pub expire_each :
      (ℤ → Bool) → Collection K V → Dict ℕ (List ℤ) → Collection K V × Dict ℕ (List ℤ)
  unfolding expire_heap
  expire_each is_stale c [] = (c, [])
  expire_each is_stale c ((partition, heap) ∷ heaps) =
      let x = expire_heap is_stale partition c heap in
      let rest = expire_each is_stale x.0 heaps in (rest.0, (partition, x.1) ∷ rest.1)

  unfoldable pub del_old_keys : (ℤ → Bool) → Collection K V → Collection K V
  unfolding expire_each
  del_old_keys is_stale c =
      let r = expire_each is_stale c c.partition_timestamps in
      record r.0 { partition_timestamps = r.1 }
