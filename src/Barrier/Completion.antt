-- ===== src/Barrier/Completion.antt =====
-- The barrier of an agent's `join`: promises are added, it is finalized, and the replies come,
-- while nobody takes them from the queue.
use mathlib.Core.List.{append_assoc}
use faust.Common.{
  ℕ, zero, suc, ◌+◌, ◌≤◌, ◌<◌, ◌≡◌, refl, sym, ap, ◌∙◌, true, false, List, [], ◌∷◌, ◌++◌, map,
  Option, none, some, arith, leb, ltb, length, length-append, String, Error,
}
use faust.Barrier.{
  Barrier, new_barrier, and_then, put_nowait, set_result, complete, add, finalize, count_reply,
  fulfill, maxsize,
}

module _ {A : Type 0} where
  unfoldable pub add_times : ℕ → Barrier A → Barrier A
  add_times zero b = b
  add_times (suc n) b = add_times n (add b)

  -- The replies in order, up to the first exception
  unfoldable pub fulfill_all : Barrier A → List (String × A) → Barrier A × Option Error
  fulfill_all b [] = (b, none)
  fulfill_all b ((id, value) ∷ replies) =
      and_then (fulfill b id value) (λ b'. fulfill_all b' replies)

  -- The replies in order, whatever exceptions they end in
  unfoldable pub fulfill_each : Barrier A → List (String × A) → Barrier A
  fulfill_each b [] = b
  fulfill_each b ((id, value) ∷ replies) = fulfill_each (fulfill b id value).0 replies

  add_times_lem : (n : ℕ) (b : Barrier A) → add_times n b ≡ record b { size = b.size + n }
  unfolding add_times add
  add_times_lem zero b = ap (λ (k : ℕ). record b { size = k }) (omega arith)
  add_times_lem (suc n) b =
      add_times_lem n (add b) ∙ ap (λ (k : ℕ). record b { size = k }) (omega arith)

  -- A finalized barrier with promises open
  abbrev pub waiting : ℕ → ℕ → List (Option (String × A)) → Barrier A
  waiting total fulfilled results = record {
    size = total;
    total = total;
    fulfilled = fulfilled;
    results = results;
    done = false;
  }

  finalize-add_times : (n : ℕ) → 0 < n → finalize (add_times n new_barrier) ≡ (waiting n 0 [], none)
  unfolding finalize
  finalize-add_times n h =
      let open_ : leb n 0 ≡ false = ground (arith, h) in
      let sum : 0 + n ≡ n = omega arith in
      let added : add_times n new_barrier ≡ record new_barrier { size = n } =
        add_times_lem n new_barrier ∙ ap (λ (k : ℕ). record new_barrier { size = k }) sum in
      ap finalize added ∙ rw open_ refl

  fulfill-waiting :
      (n k : ℕ) (xs : List (Option (String × A))) (id : String) (value : A)
      → suc k < n
      → length xs < maxsize
      → fulfill (waiting n k xs) id value ≡ (waiting n (suc k) (xs ++ some (id, value) ∷ []), none)
  unfolding fulfill put_nowait count_reply
  fulfill-waiting n k xs id value h room =
      let a : leb maxsize (length xs) ≡ false = ground (arith, room) in
      let b : ltb 0 n ≡ true = ground (arith, h) in
      let c : leb n (suc k) ≡ false = ground (arith, h) in rw (a, b, c) refl

  fulfill-last :
      (n : ℕ) (xs : List (Option (String × A))) (id : String) (value : A)
      → suc (length xs) < maxsize
      → fulfill (waiting (suc n) n xs) id value ≡ (
        record (waiting (suc n) (suc n) (xs ++ some (id, value) ∷ [] ++ none ∷ [])) { done = true },
        none,
      )
  unfolding fulfill put_nowait count_reply complete set_result
  fulfill-last n xs id value room =
      let a : leb maxsize (length xs) ≡ false = ground (arith, room) in
      let b : leb (suc n) (suc n) ≡ true = ground arith in
      let c : leb maxsize (length (xs ++ some (id, value) ∷ [])) ≡ false =
        ground (arith, room, length-append xs (some (id, value) ∷ [])) in
      let d : ltb 0 (suc n) ≡ true = ground arith in rw (a, d, b, c) refl

  pub fulfill_all-waiting :
      (k : ℕ) (xs : List (Option (String × A))) (replies : List (String × A))
      → 0 < length replies
      → length xs + length replies < maxsize
      → fulfill_all (waiting (k + length replies) k xs) replies ≡ (
        record (waiting
            (k + length replies)
            (k + length replies)
            (xs ++ map (λ r. some r) replies ++ none ∷ [])) { done = true },
        none,
      )
  unfolding fulfill_all
  fulfill_all-waiting k xs [] some_reply room = absurd (omega (arith, some_reply))
  fulfill_all-waiting k xs ((id, value) ∷ []) some_reply room =
      let one : k + 1 ≡ suc k = omega arith in
      rw (one, fulfill-last k xs id value (omega (arith, room))) refl
  fulfill_all-waiting k xs ((id, value) ∷ r ∷ replies) some_reply room =
      let n = k + suc (suc (length replies)) in
      let xs' = xs ++ some (id, value) ∷ [] in
      let shift : suc k + suc (length replies) ≡ n = omega arith in
      let rest =
        fulfill_all-waiting (suc k) xs' (r ∷ replies) (omega arith)
          (omega (arith, room, length-append xs (some (id, value) ∷ []))) in
      let step = fulfill-waiting n k xs id value (omega arith) (omega (arith, room)) in
      ap (λ (x : Barrier A × Option Error). and_then x (λ b'. fulfill_all b' (r ∷ replies))) step
      ∙ ap (λ (m : ℕ). fulfill_all (waiting m (suc k) xs') (r ∷ replies)) (sym shift)
      ∙ rest
      ∙ ap
          (λ (m : ℕ). (
            record (waiting m m (xs' ++ map (λ q. some q) (r ∷ replies) ++ none ∷ [])) {
              done = true;
            },
            none,
          ))
          shift
      ∙ ap (λ ys. (record (waiting n n (ys ++ none ∷ [])) { done = true }, none))
          (append_assoc xs (some (id, value) ∷ []) (map (λ q. some q) (r ∷ replies)))

  -- Where as many replies come after finalize as promises were added before it, at least one and
  -- below the queue's size, and nobody takes any: no call raises an exception, the barrier is done
  -- after the last reply, and the queue holds the replies in order, and the sentinel.
  pub fulfill_all-done :
      (replies : List (String × A))
      → 0 < length replies
      → length replies < maxsize
      → (finalize (add_times (length replies) new_barrier)).1 ≡ none
        × (fulfill_all (finalize (add_times (length replies) new_barrier)).0 replies ≡ (
          record {
            size = length replies;
            total = length replies;
            fulfilled = length replies;
            results = map (λ r. some r) replies ++ none ∷ [];
            done = true;
          },
          none,
        ))
  fulfill_all-done replies some_reply room =
      let n = length replies in
      let sum : 0 + n ≡ n = omega arith in
      let ready = finalize-add_times n some_reply in
      (
        ap (λ x. x.1) ready,
        ap (λ (x : Barrier A × Option Error). fulfill_all x.0 replies) ready
            ∙ ap (λ (m : ℕ). fulfill_all (waiting m 0 []) replies) (sym sum)
            ∙ fulfill_all-waiting 0 [] replies some_reply (omega (arith, room))
            ∙ ap
                (λ (m : ℕ). (
                  record (waiting m m (map (λ r. some r) replies ++ none ∷ [])) { done = true },
                  none,
                ))
                sum,
      )

  -- What holds of a barrier with more promises than the queue has room for.
  abbrev IsOpen : Barrier A → Type 0
  IsOpen b =
      (b.done ≡ false)
      × (b.fulfilled ≡ length b.results)
      × (length b.results ≤ maxsize)
      × (maxsize < b.total)

  fulfill-IsOpen :
      (b : Barrier A) (id : String) (value : A) → IsOpen b → IsOpen (fulfill b id value).0
  unfolding fulfill put_nowait count_reply
  fulfill-IsOpen b id value h = ground (arith, h, length-append b.results (some (id, value) ∷ []))

  fulfill_each-IsOpen :
      (b : Barrier A) (replies : List (String × A)) → IsOpen b → IsOpen (fulfill_each b replies)
  unfolding fulfill_each
  fulfill_each-IsOpen b [] h = h
  fulfill_each-IsOpen b ((id, value) ∷ replies) h =
      fulfill_each-IsOpen (fulfill b id value).0 replies (fulfill-IsOpen b id value h)

  -- Where more promises were added before finalize than the queue has room for, and nobody takes
  -- replies from the queue, the barrier is never done, whatever replies come after it, and however
  -- many.
  pub fulfill_each-never_done :
      (n : ℕ) (replies : List (String × A))
      → maxsize < n
      → (fulfill_each (finalize (add_times n new_barrier)).0 replies).done ≡ false
  fulfill_each-never_done n replies h =
      let ready = finalize-add_times n (omega (arith, h)) in
      ap (λ (x : Barrier A × Option Error). (fulfill_each x.0 replies).done) ready
      ∙ (fulfill_each-IsOpen (waiting n 0 []) replies (refl, refl, omega arith, h)).0
