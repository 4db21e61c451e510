-- ===== src/Tables/Heaps.antt =====
-- The heaps of timestamps: in order after a push, and what is in them.
use faust.Common.{
  ℕ, ◌≡◌, ap, ◌∙◌, ◌&&◌, ◌||◌, List, [], ◌∷◌, ◌==◌, nat_eq, nat_beq, nat_beq_iff, contains, All,
  Bool-cases, inl, inr, arith,
}
use faust.Common.Int.{ℤ, ◌≤ℤ◌, leb_ℤ, leb_ℤ_iff}
use faust.Common.Dict.{Dict, get, put, get-put}
use faust.Tables.{heappush, heap_or_empty}
use faust.Tables.Slots.{slot_eq, int_eq}
use faust.Tables.Expiry.{IsHeap}

All-heappush :
    (s t : ℤ) (heap : List ℤ)
    → s ≤ℤ t
    → All (λ u. s ≤ℤ u) heap
    → All (λ u. s ≤ℤ u) (heappush heap t)
unfolding heappush
All-heappush s t [] h k = (h, tt)
All-heappush s t (u ∷ heap) h k = elim (Bool-cases (leb_ℤ t u)) [
  | inl y ↦ rw y (h, k)
  | inr n ↦ rw n (k.0, All-heappush s t heap h k.1)
]

All-below : (s t : ℤ) (heap : List ℤ) → s ≤ℤ t → All (λ u. t ≤ℤ u) heap → All (λ u. s ≤ℤ u) heap
All-below s t [] h k = tt
All-below s t (u ∷ heap) h k = (omega (arith, h, k.0), All-below s t heap h k.1)

pub heappush-IsHeap : (heap : List ℤ) (t : ℤ) → IsHeap heap → IsHeap (heappush heap t)
unfolding heappush
heappush-IsHeap [] t h = (tt, tt)
heappush-IsHeap (s ∷ heap) t h = elim (Bool-cases (leb_ℤ t s)) [
  | inl y ↦
      let below : t ≤ℤ s = (leb_ℤ_iff t s).0 y in rw y ((below, All-below t s heap below h.0), h)
  | inr n ↦
      let above : s ≤ℤ t = ground (arith, n) in
      rw n (All-heappush s t heap above h.0, heappush-IsHeap heap t h.1)
]

contains-heappush :
    (heap : List ℤ) (t u : ℤ) → contains (heappush heap t) u ≡ (contains heap u || t == u)
unfolding heappush
contains-heappush [] t u = ground arith
contains-heappush (s ∷ heap) t u = elim (Bool-cases (leb_ℤ t s)) [
  | inl y ↦ rw y (ground arith)
  | inr n ↦ rw n (ground (arith, contains-heappush heap t u))
]

pub All-put :
    (P : List ℤ → Type 0) (heaps : Dict ℕ (List ℤ)) (p : ℕ) (heap : List ℤ)
    → P heap
    → All (λ h. P h.1) heaps
    → All (λ h. P h.1) (put heaps p heap)
unfolding put
All-put P [] p heap h k = (h, tt)
All-put P ((q, other) ∷ heaps) p heap h k = elim (Bool-cases (q == p)) [
  | inl y ↦ rw (y, put) (h, k.1)
  | inr n ↦ rw (n, put) (k.0, All-put P heaps p heap h k.1)
]

pub IsHeap-at :
    (heaps : Dict ℕ (List ℤ)) (p : ℕ)
    → All (λ h. IsHeap h.1) heaps
    → IsHeap (heap_or_empty (get heaps p))
unfolding get
IsHeap-at [] p h = tt
IsHeap-at ((q, heap) ∷ heaps) p h = elim (Bool-cases (q == p)) [
  | inl y ↦ rw y h.0
  | inr n ↦ rw n (IsHeap-at heaps p h.1)
]

pub contains-heap_put :
    (heaps : Dict ℕ (List ℤ)) (partition p : ℕ) (t u : ℤ)
    → contains
        (heap_or_empty
          (get (put heaps partition (heappush (heap_or_empty (get heaps partition)) t)) p))
        u
      ≡ (contains (heap_or_empty (get heaps p)) u || (nat_beq partition p && t == u))
contains-heap_put heaps partition p t u =
    let heap = heap_or_empty (get heaps partition) in
    elim (Bool-cases (nat_beq partition p)) [
      | inl y ↦
          let same : partition ≡ p = (nat_beq_iff partition p).0 y in
          rw (get-put heaps partition p (heappush heap t), y)
            (contains-heappush heap t u
              ∙ ap (λ q. contains (heap_or_empty (get heaps q)) u || t == u) same)
      | inr n ↦ rw (get-put heaps partition p (heappush heap t), n) (ground arith)
    ]
