-- ===== src/Attachments/Published.antt =====
-- Which attached messages a commit publishes.
use faust.Common.{
  ℕ, ◌≤◌, ◌≡◌, refl, sym, ap, ◌∙◌, false, not, List, [], ◌∷◌, map, Option, none, some, arith,
  if◌then◌else◌, leb, keep, All, Bool-cases, inl, inr, ◌==◌,
}
use faust.Common.Dict.{get, put, get-put}
use faust.Common.Order.{insert_by}
use faust.Types.{Tp, tp_eq, tp_beq_iff}
use faust.Attachments.{
  Attachment, Pending, heappush, heap_of, put_message, pop_attached, attachments_for,
  attachments_in, heap_or, publish_for_tp_offset,
}

module _ {M : Type 0} where
  -- From the smallest offset up.
  abbrev pub IsHeap : List (Attachment M) → Type 0
  IsHeap [] = Unit
  IsHeap (a ∷ heap) = All (λ b. a.offset ≤ b.offset) heap × IsHeap heap

  abbrev pub IsPending : Pending M → Type 0
  IsPending [] = Unit
  IsPending ((tp, heap) ∷ rest) = IsHeap heap × IsPending rest

  All-trans :
      (m n : ℕ) (heap : List (Attachment M))
      → m ≤ n
      → All (λ b. n ≤ b.offset) heap
      → All (λ b. m ≤ b.offset) heap
  All-trans m n [] h k = tt
  All-trans m n (b ∷ heap) h k = (omega arith, All-trans m n heap h k.1)

  All-heappush :
      (m : ℕ) (heap : List (Attachment M)) (a : Attachment M)
      → m ≤ a.offset
      → All (λ b. m ≤ b.offset) heap
      → All (λ b. m ≤ b.offset) (heappush heap a)
  unfolding insert_by
  All-heappush m [] a h k = (h, tt)
  All-heappush m (b ∷ heap) a h k = elim (Bool-cases (leb a.offset b.offset)) [
    | inl y ↦ rw (y, insert_by) (h, k)
    | inr n ↦ rw (n, insert_by) (k.0, All-heappush m heap a h k.1)
  ]

  IsHeap-heappush :
      (heap : List (Attachment M)) (a : Attachment M) → IsHeap heap → IsHeap (heappush heap a)
  unfolding insert_by
  IsHeap-heappush [] a h = (tt, tt)
  IsHeap-heappush (b ∷ heap) a h = elim (Bool-cases (leb a.offset b.offset)) [
    | inl y ↦
        let le : a.offset ≤ b.offset = ground arith in
        rw (y, insert_by) ((le, All-trans a.offset b.offset heap le h.0), h)
    | inr n ↦
        let le : b.offset ≤ a.offset = ground arith in
        rw (n, insert_by) (All-heappush b.offset heap a le h.0, IsHeap-heappush heap a h.1)
  ]

  IsHeap-heap_of : (pending : Pending M) (tp : Tp) → IsPending pending → IsHeap (heap_of pending tp)
  unfolding get
  IsHeap-heap_of [] tp h = tt
  IsHeap-heap_of ((q, heap) ∷ rest) tp h = elim (Bool-cases (q == tp)) [
    | inl y ↦ rw (y, get, IsHeap) h.0
    | inr n ↦ rw (n, get, IsHeap) (IsHeap-heap_of rest tp h.1)
  ]

  IsPending-put :
      (pending : Pending M) (tp : Tp) (heap : List (Attachment M))
      → IsPending pending
      → IsHeap heap
      → IsPending (put pending tp heap)
  unfolding put
  IsPending-put [] tp heap h k = (k, tt)
  IsPending-put ((q, w) ∷ rest) tp heap h k = elim (Bool-cases (q == tp)) [
    | inl y ↦ rw (y, put) (k, h.1)
    | inr n ↦ rw (n, put) (h.0, IsPending-put rest tp heap h.1 k)
  ]

  -- `put` keeps every queue in the order of the offsets, where they are all in that order before.
  pub put_message-IsPending :
      (pending : Pending M) (tp : Tp) (offset : ℕ) (message : M)
      → IsPending pending
      → IsPending (put_message pending tp offset message)
  unfolding put_message
  put_message-IsPending pending tp offset message h =
      let a : Attachment M = record { offset = offset; message = message } in
      IsPending-put pending tp (heappush (heap_of pending tp) a) h
        (IsHeap-heappush (heap_of pending tp) a (IsHeap-heap_of pending tp h))

  keep_none :
      (c m : ℕ) (heap : List (Attachment M))
      → leb m c ≡ false
      → All (λ b. m ≤ b.offset) heap
      → keep (λ a. leb a.offset c) heap ≡ []
  keep_none c m [] n h = refl
  keep_none c m (b ∷ heap) n h = ground (arith, keep_none c m heap)

  keep_later :
      (c m : ℕ) (heap : List (Attachment M))
      → leb m c ≡ false
      → All (λ b. m ≤ b.offset) heap
      → keep (λ a. not (leb a.offset c)) heap ≡ heap
  keep_later c m [] n h = refl
  keep_later c m (b ∷ heap) n h = ground (arith, keep_later c m heap)

  heappush_least :
      (heap : List (Attachment M)) (a : Attachment M)
      → All (λ b. a.offset ≤ b.offset) heap
      → heappush heap a ≡ a ∷ heap
  unfolding insert_by
  heappush_least [] a h = refl
  heappush_least (b ∷ heap) a h = ground arith

  pop_attached_lem :
      (heap : List (Attachment M)) (c : ℕ)
      → IsHeap heap
      → ((pop_attached heap c).0 ≡ map (λ a. a.message) (keep (λ a. leb a.offset c) heap))
        × ((pop_attached heap c).1 ≡ keep (λ a. not (leb a.offset c)) heap)
  unfolding pop_attached
  pop_attached_lem [] c h = (refl, refl)
  pop_attached_lem (a ∷ heap) c h = elim (Bool-cases (leb a.offset c)) [
    | inl y ↦
        let rest = pop_attached_lem heap c h.1 in
        rw (y, pop_attached) (ap (λ ms. a.message ∷ ms) rest.0, rest.1)
    | inr n ↦
        rw (n, pop_attached)
          (
            sym (ap (map (λ b. b.message)) (keep_none c a.offset heap n h.0)),
            heappush_least heap a h.0 ∙ sym (ap (λ xs. a ∷ xs) (keep_later c a.offset heap n h.0)),
          )
  ]

  attachments_in_lem :
      (pending : Pending M) (tp q : Tp) (offset : ℕ) (o : Option (List (Attachment M)))
      → get pending tp ≡ o
      → IsHeap (heap_or o)
      → ((attachments_in pending tp offset o).0
          ≡ map (λ a. a.message) (keep (λ a. leb a.offset offset) (heap_or o)))
        × (heap_of (attachments_in pending tp offset o).1 q ≡ (
            if tp == q
            then keep (λ a. not (leb a.offset offset)) (heap_or o)
            else heap_of pending q))
  unfolding attachments_in
  attachments_in_lem pending tp q offset none e h = (refl, ground (arith, e, tp_beq_iff tp q))
  attachments_in_lem pending tp q offset (some heap) e h =
      let popped = pop_attached_lem heap offset h in
      (
        popped.0,
        ground (
          arith,
          get-put pending tp q (pop_attached heap offset).1,
          popped.1,
          e,
          tp_beq_iff tp q,
        ),
      )

  -- Where the queues are in the order of the offsets, publishing for an offset of a partition
  -- gives the messages attached to the partition at offsets up to and including that one, in the
  -- order of the queue. The queue of a partition keeps the entries of higher offsets, and another
  -- partition's queue stays as it is.
  pub publish_for_tp_offset_lem :
      (pending : Pending M) (tp q : Tp) (offset : ℕ)
      → IsPending pending
      → ((publish_for_tp_offset pending tp offset).0
          ≡ map (λ a. a.message) (keep (λ a. leb a.offset offset) (heap_of pending tp)))
        × (heap_of (publish_for_tp_offset pending tp offset).1 q ≡ (
            if tp == q
            then keep (λ a. not (leb a.offset offset)) (heap_of pending tp)
            else heap_of pending q))
  unfolding publish_for_tp_offset attachments_for
  publish_for_tp_offset_lem pending tp q offset h =
      attachments_in_lem pending tp q offset (get pending tp) refl (IsHeap-heap_of pending tp h)
