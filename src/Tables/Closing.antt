-- ===== src/Tables/Closing.antt =====
-- Deleting the old keys of a table that tracks its keys.
use faust.Common.{
  ℕ, ◌≡◌, refl, sym, ap, ◌∙◌, Bool, true, false, List, [], ◌∷◌, none, Eq, nat_eq, nat_beq,
  nat_beq_iff, contains, Bool-cases, inl, inr, arith,
}
use faust.Common.Int.{ℤ}
use faust.Common.Dict.{Dict, get}
use faust.Windows.{WindowRange}
use faust.Tables.{Collection, heap_or_empty, del_old_keys}
use faust.Tables.Slots.{slot_eq, int_beq, int_beq_iff, int_eq}
use faust.Tables.Expiry.{slot, IsDownward, keys_at, in_heap, in_heaps, del_old_keys_lem}
use faust.Tables.Tracked.{IsTracked}

module _ {K V : Type 0} ⦃keys : Eq K⦄ where
  module _ (range_of : K → WindowRange) where
    module _ (is_stale : ℤ → Bool) where
      in_heap_stale :
          (c : Collection K V) (p : ℕ) (k : K) (t : ℤ) (heap : List ℤ)
          → is_stale t ≡ true
          → contains (keys_at c (slot p t)) k ≡ true
          → contains heap t ≡ true
          → in_heap is_stale c p k heap ≡ true
      in_heap_stale c p k t [] old there h = absurd (cc)
      in_heap_stale c p k t (u ∷ heap) old there h = elim (Bool-cases (int_beq u t)) [
        | inl y ↦ let same : u ≡ t = (int_beq_iff u t).0 y in rw same (ground (arith, old, there))
        | inr n ↦ ground (arith, in_heap_stale c p k t heap old there (ground (arith, n, h)))
      ]

      in_heaps_stale :
          (c : Collection K V) (p : ℕ) (k : K) (t : ℤ) (heaps : Dict ℕ (List ℤ))
          → is_stale t ≡ true
          → contains (keys_at c (slot p t)) k ≡ true
          → contains (heap_or_empty (get heaps p)) t ≡ true
          → in_heaps is_stale c k heaps ≡ true
      unfolding get
      in_heaps_stale c p k t [] old there h = absurd (cc)
      in_heaps_stale c p k t ((q, heap) ∷ heaps) old there h = elim (Bool-cases (nat_beq q p)) [
        | inl y ↦
            let same : q ≡ p = (nat_beq_iff q p).0 y in
            let here : contains heap t ≡ true = ground (arith, y, h) in
            rw same (ground (arith, in_heap_stale c p k t heap old there here))
        | inr n ↦
            let later : contains (heap_or_empty (get heaps p)) t ≡ true = ground (arith, n, h) in
            ground (arith, in_heaps_stale c p k t heaps old there later)
      ]

      in_heap_fresh :
          (c : Collection K V) (p : ℕ) (k : K) (heap : List ℤ)
          → IsTracked range_of c
          → is_stale (range_of k).end ≡ false
          → in_heap is_stale c p k heap ≡ false
      in_heap_fresh c p k [] h new = refl
      in_heap_fresh c p k (t ∷ heap) h new =
          let rest = in_heap_fresh c p k heap h new in
          elim (Bool-cases (contains (keys_at c (slot p t)) k)) [
            | inl y ↦
                let same : is_stale t ≡ false = ap is_stale (sym (h.2 p t k y).1) ∙ new in
                rw same rest
            | inr n ↦ rw n (ground (arith, rest))
          ]

      in_heaps_fresh :
          (c : Collection K V) (k : K) (heaps : Dict ℕ (List ℤ))
          → IsTracked range_of c
          → is_stale (range_of k).end ≡ false
          → in_heaps is_stale c k heaps ≡ false
      in_heaps_fresh c k [] h new = refl
      in_heaps_fresh c k ((p, heap) ∷ heaps) h new =
          rw (in_heap_fresh c p k heap h new) (in_heaps_fresh c k heaps h new)

      -- Where the keys are tracked, and what is stale makes all before it stale: after the old
      -- keys are deleted, a key kept in a partition at the end of its window has no value if the
      -- end is stale, and any key whose window's end is not stale has the value it had.
      pub del_old_keys-tracked :
          (c : Collection K V) (p : ℕ) (k : K)
          → IsDownward is_stale
          → IsTracked range_of c
          → (is_stale (range_of k).end ≡ true
              → contains (keys_at c (slot p (range_of k).end)) k ≡ true
              → get (del_old_keys range_of is_stale c).entries k ≡ none)
            × (is_stale (range_of k).end ≡ false
                → get (del_old_keys range_of is_stale c).entries k ≡ get c.entries k)
      del_old_keys-tracked c p k down h =
          let after = (del_old_keys_lem range_of is_stale down c k h.0 h.1).0 in
          let end = (range_of k).end in
          (
            λ old there.
                let out : in_heaps is_stale c k c.partition_timestamps ≡ true =
                  in_heaps_stale c p k end c.partition_timestamps old there (h.2 p end k there).0 in
                after ∙ rw out refl,
            λ new.
                let kept : in_heaps is_stale c k c.partition_timestamps ≡ false =
                  in_heaps_fresh c k c.partition_timestamps h new in
                after ∙ rw kept refl,
          )
