-- ===== src/Tables/Tracked.antt =====
-- What the expiry of a table keeps track of: every key in the heap of its partition, at the end of
-- its window.
use faust.Common.{
  ℕ, ◌≡◌, sym, ap, ◌∙◌, Bool, true, false, not, ◌&&◌, ◌||◌, List, some, Eq, ◌==◌, nat_eq, contains,
  include, keep, All, Bool-cases, Option-cases, inl, inr, arith,
}
use faust.Common.Members.{contains-include, contains-keep}
use faust.Common.Int.{ℤ}
use faust.Common.Dict.{Dict, get, put, get-put, HasDistinctKeys, put-HasDistinctKeys}
use faust.Windows.{WindowRange}
use faust.Tables.{
  Collection, heappush, heap_or_empty, keys_or_empty, slot_of, maybe_set_key_ttl, maybe_del_key_ttl,
}
use faust.Tables.Slots.{Slot, slot_eq, slot_beq, slot_beq_iff, int_eq}
use faust.Tables.Expiry.{slot, IsHeap, keys_at}
use faust.Tables.Heaps.{heappush-IsHeap, contains-heap_put, All-put, IsHeap-at}

module _ {K : Type 0} ⦃keys : Eq K⦄ where
  contains-keys_put :
      (kept : Dict Slot (List K)) (s u : Slot) (key k : K)
      → contains (keys_or_empty (get (put kept s (include (keys_or_empty (get kept s)) key)) u)) k
        ≡ (contains (keys_or_empty (get kept u)) k || (slot_beq s u && key == k))
  contains-keys_put kept s u key k =
      let ks = keys_or_empty (get kept s) in
      elim (Bool-cases (slot_beq s u)) [
        | inl y ↦
            let same : s ≡ u = (slot_beq_iff s u).0 y in
            rw (get-put kept s u (include ks key), y)
              (contains-include ks key k
                ∙ ap (λ v. contains (keys_or_empty (get kept v)) k || key == k) same)
        | inr n ↦ rw (get-put kept s u (include ks key), n) (ground arith)
      ]

  contains-keys_del :
      (kept : Dict Slot (List K)) (s u : Slot) (key k : K) (ks : List K)
      → get kept s ≡ some ks
      → contains (keys_or_empty (get (put kept s (keep (λ x. not (x == key)) ks)) u)) k ≡ true
      → contains (keys_or_empty (get kept u)) k ≡ true
  contains-keys_del kept s u key k ks e there =
      let rest = keep (λ x. not (x == key)) ks in
      let now = sym (ap (λ o. contains (keys_or_empty o) k) (get-put kept s u rest)) ∙ there in
      elim (Bool-cases (slot_beq s u)) [
        | inl y ↦
            let same : s ≡ u = (slot_beq_iff s u).0 y in
            let found : get kept u ≡ some ks = ap (get kept) (sym same) ∙ e in
            rw found (ground (arith, y, now, contains-keep (λ x. not (x == key)) ks k))
        | inr n ↦ ground (arith, n, now)
      ]

module _ {K V : Type 0} ⦃keys : Eq K⦄ where
  abbrev pub heap_at : Collection K V → ℕ → List ℤ
  heap_at c p = heap_or_empty (get c.partition_timestamps p)

  module _ (range_of : K → WindowRange) where
    abbrev pub IsTracked : Collection K V → Type 0
    IsTracked c =
        All (λ h. IsHeap h.1) c.partition_timestamps
        × HasDistinctKeys c.partition_timestamps
        × ((p : ℕ) (t : ℤ) (k : K)
            → contains (keys_at c (slot p t)) k ≡ true
            → (contains (heap_at c p) t ≡ true) × ((range_of k).end ≡ t))

    set_tracks :
        (c : Collection K V) (key : K) (partition : ℕ)
        → IsTracked c
        → (p : ℕ) (t : ℤ) (k : K)
        → contains (keys_at (maybe_set_key_ttl range_of true c key partition) (slot p t)) k ≡ true
        → (contains (heap_at (maybe_set_key_ttl range_of true c key partition) p) t ≡ true)
          × ((range_of k).end ≡ t)
    unfolding maybe_set_key_ttl
    set_tracks c key partition h p t k there =
        let end = (range_of key).end in
        let s = slot_of range_of partition key in
        let heaps = contains-heap_put c.partition_timestamps partition p end t in
        let kept = sym (contains-keys_put c.partition_timestamp_keys s (slot p t) key k) ∙ there in
        elim (Bool-cases (contains (keys_at c (slot p t)) k)) [
          | inl y ↦ let old = h.2 p t k y in (heaps ∙ ground (arith, old.0), old.1)
          | inr n ↦
              let in_slot : slot_beq s (slot p t) ≡ true = ground (arith, n, kept) in
              let is_key : (key == k) ≡ true = ground (arith, n, kept) in
              let same : s ≡ slot p t = (slot_beq_iff s (slot p t)).0 in_slot in
              let same_t : end ≡ t = ap (λ (u : Slot). u.end) same in
              (
                heaps ∙ ground (arith, in_slot),
                sym (ap (λ (x : K). (range_of x).end) ((keys.beq_iff key k).0 is_key)) ∙ same_t,
              )
        ]

    del_tracks :
        (c : Collection K V) (key : K) (partition : ℕ)
        → IsTracked c
        → IsTracked (maybe_del_key_ttl range_of true c key partition)
    unfolding maybe_del_key_ttl
    del_tracks c key partition h =
        let s = slot_of range_of partition key in
        elim (Option-cases (get c.partition_timestamp_keys s)) [
          | inl e ↦ rw e h
          | inr (ks, e) ↦ rw e (
            h.0,
            h.1,
            λ p t k there.
                h.2 p t k
                  (contains-keys_del c.partition_timestamp_keys s (slot p t) key k ks e there),
          )
        ]

    -- Setting the expiry of a key keeps, and so does deleting it: the heap of every partition is
    -- in order, no partition has two heaps, and every key that is kept at a timestamp of a
    -- partition has a window that ends then, and the timestamp is in the partition's heap.
    pub key_ttl-IsTracked :
        (expires : Bool) (c : Collection K V) (key : K) (partition : ℕ)
        → IsTracked c
        → IsTracked (maybe_set_key_ttl range_of expires c key partition)
          × IsTracked (maybe_del_key_ttl range_of expires c key partition)
    unfolding maybe_set_key_ttl maybe_del_key_ttl
    key_ttl-IsTracked false c key partition h = (h, h)
    key_ttl-IsTracked true c key partition h =
        let heap = heappush (heap_at c partition) (range_of key).end in
        (
          (
            All-put IsHeap c.partition_timestamps partition heap
                (heappush-IsHeap (heap_at c partition) (range_of key).end
                  (IsHeap-at c.partition_timestamps partition h.0))
                h.0,
            put-HasDistinctKeys c.partition_timestamps partition heap h.1,
            set_tracks c key partition h,
          ),
          del_tracks c key partition h,
        )
