-- ===== src/Barrier/Join/Done.antt =====
-- A join whose items have all been replied to.
use mathlib.Core.List.{append_assoc, append-nil}
use faust.Common.{
  ℕ, suc, ◌+◌, ◌<◌, ◌≤◌, ◌≡◌, refl, sym, ap, ◌∙◌, true, false, List, [], ◌∷◌, ◌++◌, map, Option,
  none, some, arith, String, string_eq, contains, length, length-append, leb, get_elem?, replicate,
  All, if◌then◌else◌, Error,
}
use faust.Common.Dict.{get, HasDistinctKeys}
use faust.Common.Members.{IsSetList}
use faust.Barrier.{
  Barrier, and_then, put_nowait, set_result, complete, add, finalize, count_reply, fulfill, maxsize,
}
use faust.Barrier.Completion.{waiting, fulfill_all, fulfill_each, fulfill_all-waiting}
use faust.Barrier.Delivery.{replies}
use faust.Barrier.Join.{
  Sending, sends, replied, returns, posindex_from, place_each, send_each, sent_ids, returned, waits,
  awaited, collect, kvjoin,
}
use faust.Barrier.Join.Places.{
  get_elem?-replicate, get_elem?-lt, value_or, place_each_lem, contains-at, get-some_of_enough,
}

module _ {V : Type 0} where
  -- The replies that came while the messages were sent
  abbrev pub early : List (Sending V) → List (String × V)
  early [] = []
  early (sends id ∷ sending) = early sending
  early (replied id value ∷ sending) = (id, value) ∷ early sending

  -- A barrier that is not finalized
  abbrev growing : ℕ → ℕ → List (Option (String × V)) → Barrier V
  growing size fulfilled results = record {
    size = size;
    total = 0;
    fulfilled = fulfilled;
    results = results;
    done = false;
  }

  -- A barrier with all its replies
  abbrev completed : ℕ → List (Option (String × V)) → Barrier V
  completed n results = record (waiting n n results) { done = true }

  fulfill-growing :
      (n k : ℕ) (xs : List (Option (String × V))) (id : String) (value : V)
      → length xs < maxsize
      → fulfill (growing n k xs) id value ≡ (growing n (suc k) (xs ++ some (id, value) ∷ []), none)
  unfolding fulfill put_nowait count_reply
  fulfill-growing n k xs id value room =
      let a : leb maxsize (length xs) ≡ false = ground (arith, room) in rw a refl

  send_each-growing :
      (sending : List (Sending V)) (n k : ℕ) (xs : List (Option (String × V)))
      → length xs + length (early sending) ≤ maxsize
      → send_each (growing n k xs) sending
        ≡ growing
            (n + length (sent_ids sending))
            (k + length (early sending))
            (xs ++ map (λ r. some r) (early sending))
  unfolding send_each add
  send_each-growing [] n k xs room =
      let a : n ≡ n + 0 = omega arith in
      let b : k ≡ k + 0 = omega arith in
      ap (λ m. growing m k xs) a
      ∙ ap (λ m. growing (n + 0) m xs) b
      ∙ ap (λ ys. growing (n + 0) (k + 0) ys) (sym (append-nil xs))
  send_each-growing (sends id ∷ sending) n k xs room =
      send_each-growing sending (suc n) k xs room
      ∙ ap (λ m. growing m (k + length (early sending)) (xs ++ map (λ r. some r) (early sending)))
          (omega arith)
  send_each-growing (replied id value ∷ sending) n k xs room =
      let xs' = xs ++ some (id, value) ∷ [] in
      ap (λ x. send_each x.0 sending) (fulfill-growing n k xs id value (omega (arith, room)))
      ∙ send_each-growing sending n (suc k) xs'
          (omega (arith, room, length-append xs (some (id, value) ∷ [])))
      ∙ ap
          (λ m.
            growing (n + length (sent_ids sending)) m (xs' ++ map (λ r. some r) (early sending)))
          (omega arith)
      ∙ ap (λ ys. growing (n + length (sent_ids sending)) (k + suc (length (early sending))) ys)
          (append_assoc xs (some (id, value) ∷ []) (map (λ r. some r) (early sending)))

  -- All the replies were early.
  finalize-all_early :
      (n : ℕ) (xs : List (Option (String × V)))
      → length xs < maxsize
      → finalize (growing n n xs) ≡ (completed n (xs ++ none ∷ []), none)
  unfolding finalize complete set_result put_nowait
  finalize-all_early n xs room =
      let a : leb n n ≡ true = ground arith in
      let b : leb maxsize (length xs) ≡ false = ground (arith, room) in rw (a, b) refl

  finalize-some_late :
      (n k : ℕ) (xs : List (Option (String × V)))
      → k < n
      → finalize (growing n k xs) ≡ (waiting n k xs, none)
  unfolding finalize
  finalize-some_late n k xs h = let a : leb n k ≡ false = ground (arith, h) in rw a refl

  and_then-none :
      (x : Barrier V × Option Error) (f : Barrier V → Barrier V × Option Error) (b : Barrier V)
      → and_then x f ≡ (b, none)
      → f x.0 ≡ (b, none)
  and_then-none (c, none) f b h = h
  and_then-none (c, some e) f b h = absurd (cc)

  fulfill_each-all :
      (b b' : Barrier V) (rs : List (String × V))
      → fulfill_all b rs ≡ (b', none)
      → fulfill_each b rs ≡ b'
  unfolding fulfill_each fulfill_all
  fulfill_each-all b b' [] h = ap (λ x. x.0) h
  fulfill_each-all b b' ((id, value) ∷ rs) h =
      fulfill_each-all (fulfill b id value).0 b' rs
        (and_then-none (fulfill b id value) (λ c. fulfill_all c rs) b' h)

  replies-some : (rs : List (String × V)) → replies (map (λ r. some r) rs ++ none ∷ []) ≡ rs
  unfolding replies
  replies-some [] = refl
  replies-some (r ∷ rs) = ap (λ ys. r ∷ ys) (replies-some rs)

  length-map : (rs : List (String × V)) → length (map (λ r. some r) rs) ≡ length rs
  length-map [] = refl
  length-map (r ∷ rs) = ap suc (length-map rs)

  map-append_some :
      (xs ys : List (String × V))
      → map (λ r. some r) xs ++ map (λ r. some r) ys ++ none ∷ []
        ≡ map (λ r. some r) (xs ++ ys) ++ none ∷ []
  map-append_some [] ys = refl
  map-append_some (x ∷ xs) ys = ap (λ zs. some x ∷ zs) (map-append_some xs ys)

  -- The barrier of a join of which every item has been replied to
  awaited-all :
      (n : ℕ) (early_replies late : List (String × V)) (ids : List String)
      → length early_replies + length late ≡ n
      → n < maxsize
      → awaited late ids
          (finalize (growing n (length early_replies) (map (λ r. some r) early_replies)))
        ≡ collect (completed n (map (λ r. some r) (early_replies ++ late) ++ none ∷ [])) ids
  unfolding fulfill_each
  awaited-all n early_replies [] ids all room =
      let same : length early_replies ≡ n = omega (arith, all) in
      let xs = map (λ r. some r) early_replies in
      let fits : length xs < maxsize = rw (length-map early_replies) (omega (arith, same, room)) in
      ap (λ (k : ℕ). awaited [] ids (finalize (growing n k xs))) same
      ∙ ap (awaited [] ids) (finalize-all_early n xs fits)
      ∙ ap (λ rs. collect (completed n (map (λ r. some r) rs ++ none ∷ [])) ids)
          (sym (append-nil early_replies))
  awaited-all n early_replies (r ∷ late) ids all room =
      let k = length early_replies in
      let xs = map (λ r. some r) early_replies in
      let rs = r ∷ late in
      let fits : length xs + length rs < maxsize =
        rw (length-map early_replies) (omega (arith, all, room)) in
      let told = fulfill_all-waiting k xs rs (omega arith) fits in
      ap (awaited rs ids) (finalize-some_late n k xs (omega (arith, all)))
      ∙ ap (λ (m : ℕ). awaited rs ids (waiting m k xs, none)) (sym all)
      ∙ ap (λ b. if b.done then collect b ids else waits)
          (fulfill_each-all (waiting (k + length rs) k xs) _ rs told)
      ∙ ap (λ (m : ℕ). collect (completed m (xs ++ map (λ q. some q) rs ++ none ∷ [])) ids) all
      ∙ ap (λ ys. collect (completed n ys) ids) (map-append_some early_replies rs)

  kvjoin-collect :
      (sending : List (Sending V)) (late : List (String × V))
      → length (early sending) + length late ≡ length (sent_ids sending)
      → length (sent_ids sending) < maxsize
      → kvjoin sending late
        ≡ collect
            (completed
              (length (sent_ids sending))
              (map (λ r. some r) (early sending ++ late) ++ none ∷ []))
            (sent_ids sending)
  unfolding kvjoin
  kvjoin-collect sending late all room =
      let n = length (sent_ids sending) in
      let k = length (early sending) in
      let ids = sent_ids sending in
      let xs = map (λ r. some r) (early sending) in
      ap (λ b. awaited late ids (finalize b))
        (send_each-growing sending 0 0 [] (omega (arith, all, room)))
      ∙ ap (λ (m : ℕ). awaited late ids (finalize (growing m (0 + k) xs))) (omega arith)
      ∙ ap (λ (m : ℕ). awaited late ids (finalize (growing n m xs))) (omega arith)
      ∙ awaited-all n (early sending) late ids all room

  -- Where the correlation ids of the items are distinct, every reply is to one of them, no item is
  -- replied to twice, there are as many replies as items, and fewer than 1000: kvjoin returns, and
  -- the value at the place of each item is that of the reply to it, which there is, whichever
  -- replies come before all messages are sent and in whatever order.
  pub kvjoin-places :
      (sending : List (Sending V)) (late : List (String × V))
      → IsSetList (sent_ids sending)
      → HasDistinctKeys (early sending ++ late)
      → All (λ r. contains (sent_ids sending) r.0 ≡ true) (early sending ++ late)
      → length (early sending) + length late ≡ length (sent_ids sending)
      → length (sent_ids sending) < maxsize
      → (values : List (Option V)) × (kvjoin sending late ≡ returns values)
        × ((i : ℕ) (id : String)
            → get_elem? (sent_ids sending) i ≡ some id
            → (v : V) × (get (early sending ++ late) id ≡ some v)
              × (get_elem? values i ≡ some (some v)))
  unfolding posindex_from place_each replies
  kvjoin-places sending late distinct d known all room =
      let ids = sent_ids sending in
      let rs = early sending ++ late in
      let n = length ids in
      let r = place_each_lem ids distinct (replicate n none) rs d known in
      let enough : n ≤ length rs = omega (arith, all, length-append (early sending) late) in
      (
        r.0,
        kvjoin-collect sending late all room
            ∙ ap (λ ys. returned (place_each (posindex_from [] 0 ids) (replicate n none) ys))
                (replies-some rs)
            ∙ ap returned r.1,
        λ i id h.
            let reply = get-some_of_enough ids rs id d known enough (contains-at ids i id h) in
            (
              reply.0,
              reply.1,
              r.2 i id none h (get_elem?-replicate n i none (get_elem?-lt ids i id h))
                  ∙ ap (λ o. some (value_or o none)) reply.1,
            ),
      )
