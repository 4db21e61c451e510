-- ===== src/Tables/Expiry.antt =====
-- Which keys a table loses when its old keys are deleted.
use faust.Common.{
  ℕ, ◌≡◌, ◌≢◌, refl, sym, ap, ◌∙◌, Bool, true, false, ◌&&◌, ◌||◌, List, [], ◌∷◌, ◌++◌, none,
  if◌then◌else◌, Eq, ◌==◌, nat_eq, nat_beq_iff, contains, any, All, Bool-cases, inl, inr, arith,
}
use faust.Common.Int.{ℤ, ◌≤ℤ◌}
use faust.Common.Dict.{Dict, get, remove, get-remove, HasDistinctKeys}
use faust.Windows.{WindowRange}
use faust.Tables.{
  Collection, keys_or_empty, close_each, close_slot, expire_heap, expire_each, del_old_keys,
}
use faust.Tables.Slots.{Slot, slot_eq, slot_beq, slot_beq_iff}

abbrev pub slot : ℕ → ℤ → Slot
slot partition t = record { partition = partition; end = t }

-- The heap of a partition is in order.
abbrev pub IsHeap : List ℤ → Type 0
IsHeap [] = Unit
IsHeap (t ∷ heap) = All (λ u. t ≤ℤ u) heap × IsHeap heap

-- What is stale makes everything before it stale.
abbrev pub IsDownward : (ℤ → Bool) → Type 0
IsDownward is_stale = (a b : ℤ) → a ≤ℤ b → is_stale b ≡ true → is_stale a ≡ true

module _ {K V : Type 0} ⦃keys : Eq K⦄ where
  abbrev pub keys_at : Collection K V → Slot → List K
  keys_at c s = keys_or_empty (get c.partition_timestamp_keys s)

  -- The key is kept at a stale timestamp of the partition.
  abbrev pub in_heap : (ℤ → Bool) → Collection K V → ℕ → K → List ℤ → Bool
  in_heap is_stale c partition k [] = false
  in_heap is_stale c partition k (t ∷ heap) =
      is_stale t && contains (keys_at c (slot partition t)) k || in_heap is_stale c partition k heap

  abbrev pub in_heaps : (ℤ → Bool) → Collection K V → K → Dict ℕ (List ℤ) → Bool
  in_heaps is_stale c k [] = false
  in_heaps is_stale c k ((partition, heap) ∷ heaps) =
      in_heap is_stale c partition k heap || in_heaps is_stale c k heaps

  module _ (range_of : K → WindowRange) where
    close_each_lem :
        (c : Collection K V) (ks : List K) (k : K)
        → (get (close_each range_of c ks).entries k
            ≡ (if contains ks k then none else get c.entries k))
          × ((close_each range_of c ks).partition_timestamp_keys ≡ c.partition_timestamp_keys)
    unfolding close_each
    close_each_lem c [] k = (refl, refl)
    close_each_lem c (x ∷ ks) k =
        let c' = record c {
          entries = remove c.entries x;
          closed = c.closed ++ (x, get c.entries x) ∷ [];
        } in
        let rest = close_each_lem c' ks k in
        (ground (arith, rest.0, get-remove c.entries x k), rest.1)

    close_slot_lem :
        (c : Collection K V) (s : Slot) (k : K)
        → (get (close_slot range_of c s).entries k
            ≡ (if contains (keys_at c s) k then none else get c.entries k))
          × ((u : Slot)
              → keys_at (close_slot range_of c s) u ≡ (if s == u then [] else keys_at c u))
    unfolding close_slot
    close_slot_lem c s k =
        let ks = keys_at c s in
        let popped = record c { partition_timestamp_keys = remove c.partition_timestamp_keys s } in
        let r = close_each_lem popped ks k in
        (
          r.0,
          λ u.
              ap (λ d. keys_or_empty (get d u)) r.1
              ∙ ap keys_or_empty (get-remove c.partition_timestamp_keys s u)
              ∙ cases u,
        )
      where
        cases :
            (u : Slot)
            → keys_or_empty (if s == u then none else get c.partition_timestamp_keys u)
              ≡ (if s == u then [] else keys_at c u)
        cases u = elim (Bool-cases (s == u)) [ inl y ↦ rw y refl | inr n ↦ rw n refl ]

  in_heap_same :
      (is_stale : ℤ → Bool) (a b : Collection K V) (partition : ℕ) (k : K) (heap : List ℤ)
      → ((t : ℤ) → keys_at a (slot partition t) ≡ keys_at b (slot partition t))
      → in_heap is_stale a partition k heap ≡ in_heap is_stale b partition k heap
  in_heap_same is_stale a b partition k [] h = refl
  in_heap_same is_stale a b partition k (t ∷ heap) h =
      rw (h t, in_heap_same is_stale a b partition k heap h) refl

  in_heaps_same :
      (is_stale : ℤ → Bool) (a b : Collection K V) (k : K) (heaps : Dict ℕ (List ℤ)) (partition : ℕ)
      → ((s : Slot) → s.partition ≢ partition → keys_at a s ≡ keys_at b s)
      → get heaps partition ≡ none
      → in_heaps is_stale a k heaps ≡ in_heaps is_stale b k heaps
  unfolding get
  in_heaps_same is_stale a b k [] partition h absent = refl
  in_heaps_same is_stale a b k ((p, heap) ∷ heaps) partition h absent =
      let away : p ≢ partition =
        λ e. absurd (ground (arith, absent, (nat_beq_iff p partition).1 e)) in
      let rest : get heaps partition ≡ none = ground (arith, absent) in
      let one = in_heap_same is_stale a b p k heap (λ t. h (slot p t) away) in
      rw (one, in_heaps_same is_stale a b k heaps partition h rest) refl

  fresh_heap :
      (is_stale : ℤ → Bool) (c : Collection K V) (partition : ℕ) (k : K) (t : ℤ) (heap : List ℤ)
      → IsDownward is_stale
      → is_stale t ≡ false
      → All (λ u. t ≤ℤ u) heap
      → (in_heap is_stale c partition k heap ≡ false) × (any is_stale heap ≡ false)
  fresh_heap is_stale c partition k t [] d n h = (refl, refl)
  fresh_heap is_stale c partition k t (u ∷ heap) d n h =
      let rest = fresh_heap is_stale c partition k t heap d n h.1 in
      elim (Bool-cases (is_stale u)) [
        | inl y ↦ absurd (ground (arith, n, d t u h.0 y))
        | inr m ↦ rw m rest
      ]

  module _ (range_of : K → WindowRange) (is_stale : ℤ → Bool) (down : IsDownward is_stale) where
    in_heap_close :
        (c : Collection K V) (partition : ℕ) (k : K) (t : ℤ) (heap : List ℤ)
        → (in_heap is_stale (close_slot range_of c (slot partition t)) partition k heap
            || contains (keys_at c (slot partition t)) k)
          ≡ (in_heap is_stale c partition k heap || contains (keys_at c (slot partition t)) k)
    in_heap_close c partition k t [] = refl
    in_heap_close c partition k t (u ∷ heap) =
        let rest = in_heap_close c partition k t heap in
        let here = (close_slot_lem range_of c (slot partition t) k).1 (slot partition u) in
        elim (Bool-cases (slot_beq (slot partition t) (slot partition u))) [
          | inl y ↦
              let same : contains (keys_at c (slot partition t)) k
                  ≡ contains (keys_at c (slot partition u)) k =
                ap (λ s. contains (keys_at c s) k)
                  ((slot_beq_iff (slot partition t) (slot partition u)).0 y) in
              rw here (rw y (ground (arith, rest, same)))
          | inr n ↦ rw here (rw n (ground (arith, rest)))
        ]

    expire_heap_lem :
        (c : Collection K V) (partition : ℕ) (k : K) (heap : List ℤ)
        → IsHeap heap
        → (get (expire_heap range_of is_stale partition c heap).0.entries k
            ≡ (if in_heap is_stale c partition k heap then none else get c.entries k))
          × ((s : Slot)
              → s.partition ≢ partition
              → keys_at (expire_heap range_of is_stale partition c heap).0 s ≡ keys_at c s)
          × (any is_stale (expire_heap range_of is_stale partition c heap).1 ≡ false)
    unfolding expire_heap
    expire_heap_lem c partition k [] h = (refl, (λ s n. refl), refl)
    expire_heap_lem c partition k (t ∷ heap) h =
        let s = slot partition t in
        let c' = close_slot range_of c s in
        let closed = close_slot_lem range_of c s k in
        let rest = expire_heap_lem c' partition k heap h.1 in
        let spread = in_heap_close c partition k t heap in
        elim (Bool-cases (is_stale t)) [
          | inl y ↦
              rw (y, expire_heap)
                (
                  ground (arith, rest.0, closed.0, spread),
                  λ u n. rest.1 u n ∙ closed.1 u ∙ other u n,
                  rest.2,
                )
          | inr n ↦
              let fresh = fresh_heap is_stale c partition k t heap down n h.0 in
              rw (n, expire_heap, fresh.0) (refl, (λ s m. refl), ground (arith, n, fresh.1))
        ]
      where
        other :
            (u : Slot)
            → u.partition ≢ partition
            → (if slot partition t == u then [] else keys_at c u) ≡ keys_at c u
        other u n = elim (Bool-cases (slot_beq (slot partition t) u)) [
          | inl y ↦
              absurd
                (n (sym (ap (λ (s : Slot). s.partition) ((slot_beq_iff (slot partition t) u).0 y))))
          | inr m ↦ rw m refl
        ]

    expire_each_lem :
        (c : Collection K V) (k : K) (heaps : Dict ℕ (List ℤ))
        → All (λ h. IsHeap h.1) heaps
        → HasDistinctKeys heaps
        → (get (expire_each range_of is_stale c heaps).0.entries k
            ≡ (if in_heaps is_stale c k heaps then none else get c.entries k))
          × (any (λ h. any is_stale h.1) (expire_each range_of is_stale c heaps).1 ≡ false)
    unfolding expire_each
    expire_each_lem c k [] h d = (refl, refl)
    expire_each_lem c k ((partition, heap) ∷ heaps) h d =
        let x = expire_heap range_of is_stale partition c heap in
        let one = expire_heap_lem c partition k heap h.0 in
        let rest = expire_each_lem x.0 k heaps h.1 d.1 in
        let same = in_heaps_same is_stale x.0 c k heaps partition one.1 d.0 in
        (ground (arith, rest.0, same, one.0), ground (arith, one.2, rest.1))

    -- Where the heaps are in order, and what is stale makes all before it stale: after the old
    -- keys are deleted, a key that was kept at a stale timestamp in the heap of a partition has no
    -- value, any other key has the value it had, and no heap has a stale timestamp.
    pub del_old_keys_lem :
        (c : Collection K V) (k : K)
        → All (λ h. IsHeap h.1) c.partition_timestamps
        → HasDistinctKeys c.partition_timestamps
        → (get (del_old_keys range_of is_stale c).entries k
            ≡ (if in_heaps is_stale c k c.partition_timestamps then none else get c.entries k))
          × (any (λ h. any is_stale h.1) (del_old_keys range_of is_stale c).partition_timestamps
              ≡ false)
    unfolding del_old_keys
    del_old_keys_lem c k h d = expire_each_lem c k c.partition_timestamps h d
