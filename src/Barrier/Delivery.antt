-- ===== src/Barrier/Delivery.antt =====
-- The histories of a barrier whose calls raised nothing: what was replied to it, what was taken
-- from it, and when it is done.
use mathlib.Core.List.{append_assoc, append-nil}
use faust.Common.{
  ℕ, zero, suc, ◌≡◌, refl, sym, ap, ◌∙◌, Bool, true, false, ◌&&◌, List, [], ◌∷◌, ◌++◌, Option, none,
  some, arith, if◌then◌else◌, leb, ltb, length, String,
}
use faust.Barrier.{
  Barrier, new_barrier, put_nowait, set_result, complete, add, finalize, count_reply, fulfill,
  take_results, get_nowait,
}

done_lem :
    (growing : Bool) (size total fulfilled : ℕ) (done : Bool)
    → done ≡ (if growing then false else leb size fulfilled)
    → total ≡ (if growing then 0 else size)
    → (if ltb 0 total && leb total (suc fulfilled) then true else done)
      ≡ (if growing then false else leb size (suc fulfilled))
done_lem growing size total fulfilled done d t = ground arith

module _ {A : Type 0} where
  -- Before `finalize` (true: not yet finalized), and after it: the replies that came, and those
  -- that were taken, in order.
  pub data Reach : Bool → Barrier A → List (String × A) → List (String × A) → Type 0 where
    start : Reach true new_barrier [] []
    added :
        {b : Barrier A} {xs ys : List (String × A)} → Reach true b xs ys → Reach true (add b) xs ys
    finalized :
        {b : Barrier A} {xs ys : List (String × A)}
        → Reach true b xs ys
        → (finalize b).1 ≡ none
        → Reach false (finalize b).0 xs ys
    replied :
        {growing : Bool} {b : Barrier A} {xs ys : List (String × A)} (id : String) (value : A)
        → Reach growing b xs ys
        → (fulfill b id value).1 ≡ none
        → Reach growing (fulfill b id value).0 (xs ++ (id, value) ∷ []) ys
    taken :
        {growing : Bool} {b : Barrier A} {xs ys : List (String × A)} (reply : String × A)
        → Reach growing b xs ys
        → (get_nowait b).1 ≡ some reply
        → Reach growing (get_nowait b).0 xs (ys ++ reply ∷ [])

  -- The results without the sentinels
  unfoldable pub replies : List (Option (String × A)) → List (String × A)
  replies [] = []
  replies (none ∷ xs) = replies xs
  replies (some reply ∷ xs) = reply ∷ replies xs

  pub replies-append :
      (xs ys : List (Option (String × A))) → replies (xs ++ ys) ≡ replies xs ++ replies ys
  unfolding replies
  replies-append [] ys = refl
  replies-append (none ∷ xs) ys = replies-append xs ys
  replies-append (some reply ∷ xs) ys = ap (λ zs. reply ∷ zs) (replies-append xs ys)

  take_results_lem :
      (n : ℕ) (xs : List (Option (String × A))) (reply : String × A)
      → (take_results n xs).1 ≡ some reply
      → replies xs ≡ reply ∷ replies (take_results n xs).0
  unfolding take_results replies
  take_results_lem zero xs reply e = absurd (cc)
  take_results_lem (suc n) [] reply e = absurd (cc)
  take_results_lem (suc n) (none ∷ xs) reply e = take_results_lem n xs reply e
  take_results_lem (suc n) (some r ∷ xs) reply e = ground (arith, e)

  -- What the calls keep: the counts, the mark, and the replies.
  abbrev pub IsBarrier : Bool → Barrier A → List (String × A) → List (String × A) → Type 0
  IsBarrier growing b xs ys =
      (b.fulfilled ≡ length xs)
      × (xs ≡ ys ++ replies b.results)
      × (b.done ≡ (if growing then false else leb b.size b.fulfilled))
      × (b.total ≡ (if growing then 0 else b.size))

  -- What a call that raised nothing leaves.
  complete_lem :
      (b : Barrier A)
      → (complete b).1 ≡ none
      → ((complete b).0 ≡ record b { done = true; results = b.results ++ none ∷ [] })
        × (b.done ≡ false)
  unfolding complete set_result put_nowait
  complete_lem b e = ground (arith, e)

  fulfill_lem :
      (b : Barrier A) (id : String) (value : A)
      → (fulfill b id value).1 ≡ none
      → ((fulfill b id value).0.fulfilled ≡ suc b.fulfilled)
        × ((fulfill b id value).0.size ≡ b.size)
        × ((fulfill b id value).0.total ≡ b.total)
        × (replies (fulfill b id value).0.results ≡ replies b.results ++ (id, value) ∷ [])
        × ((fulfill b id value).0.done
            ≡ (if ltb 0 b.total && leb b.total (suc b.fulfilled) then true else b.done))
  unfolding fulfill count_reply replies put_nowait complete set_result
  fulfill_lem b id value e = ground (
    arith,
    e,
    replies-append b.results (some (id, value) ∷ []),
    replies-append (b.results ++ some (id, value) ∷ []) (none ∷ []),
    append-nil (replies b.results ++ (id, value) ∷ []),
  )

  finalize_lem :
      (b : Barrier A)
      → (finalize b).1 ≡ none
      → b.done ≡ false
      → ((finalize b).0.fulfilled ≡ b.fulfilled)
        × ((finalize b).0.size ≡ b.size)
        × ((finalize b).0.total ≡ b.size)
        × (replies (finalize b).0.results ≡ replies b.results)
        × ((finalize b).0.done ≡ leb b.size b.fulfilled)
  unfolding finalize replies put_nowait complete set_result
  finalize_lem b e d =
      ground (arith, e, replies-append b.results (none ∷ []), append-nil (replies b.results))

  length-snoc : (xs : List (String × A)) (x : String × A) → length (xs ++ x ∷ []) ≡ suc (length xs)
  length-snoc [] x = refl
  length-snoc (y ∷ xs) x = ap suc (length-snoc xs x)

  -- In every history in which no call raised an exception, promises are added only before
  -- finalize, and finalize is called at most once: the barrier counts every reply that came; the
  -- replies that came are those taken by get_nowait, followed by those in the queue, in order; and
  -- the barrier is done exactly when it is finalized and at least as many replies came as promises
  -- were added.
  pub reach-IsBarrier :
      (growing : Bool) (b : Barrier A) (xs ys : List (String × A))
      → Reach growing b xs ys
      → IsBarrier growing b xs ys
  unfolding replies add get_nowait
  reach-IsBarrier _ _ _ _ start = (refl, refl, refl, refl)
  reach-IsBarrier _ _ xs ys (added {b = b} r) =
      let h = reach-IsBarrier true b xs ys r in (h.0, h.1, h.2, h.3)
  reach-IsBarrier _ _ xs ys (finalized {b = b} r e) =
      let h = reach-IsBarrier true b xs ys r in
      let f = finalize_lem b e h.2 in
      (f.0 ∙ h.0, rw f.3 h.1, rw (f.4, f.1, f.0) refl, f.2 ∙ sym f.1)
  reach-IsBarrier growing _ _ ys (replied {b = b} {xs = xs} id value r e) =
      let h = reach-IsBarrier growing b xs ys r in
      let f = fulfill_lem b id value e in
      (
        f.0 ∙ ap suc h.0 ∙ sym (length-snoc xs (id, value)),
        ap (λ zs. zs ++ (id, value) ∷ []) h.1
            ∙ append_assoc ys (replies b.results) ((id, value) ∷ [])
            ∙ sym (ap (λ zs. ys ++ zs) f.3),
        f.4 ∙ done_lem growing b.size b.total b.fulfilled b.done h.2 h.3 ∙ rw (f.1, f.0) refl,
        f.2 ∙ rw f.1 h.3,
      )
  reach-IsBarrier growing _ xs _ (taken {b = b} {ys = ys} reply r e) =
      let h = reach-IsBarrier growing b xs ys r in
      (
        h.0,
        h.1
            ∙ ap (λ zs. ys ++ zs) (take_results_lem 10 b.results reply e)
            ∙ sym (append_assoc ys (reply ∷ []) (replies (get_nowait b).0.results)),
        h.2,
        h.3,
      )
