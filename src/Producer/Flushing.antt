-- ===== src/Producer/Flushing.antt =====
-- What a flush of the producer's buffer leaves.
use faust.Common.{
  ℕ, suc, ◌+◌, ◌≡◌, ◌⊎◌, refl, sym, ap, ◌∙◌, arith, Bool, true, false, not, ◌&&◌, List, [], ◌∷◌,
  ◌++◌, Option, none, some, if◌then◌else◌, length, nat_beq, Result, ok, err, runtime_error,
  out_of_fuel, replicate, inl, inr,
}
use mathlib.Core.List.{append-nil, append_assoc}
use faust.Producer.{
  Buffer, Act, puts, works, put, get_pending, work_on, handle_pending, size, act_all, below,
  flush_atmost,
}

abbrev pub option_list : {M : Type 0} → Option M → List M
option_list none = []
option_list (some m) = m ∷ []

either :
    {A : Type 0} (P : A → Type 0) (test : Bool) (x y : A) → P x → P y → P (if test then x else y)
either P true x y p q = p
either P false x y p q = q

nonempty : (n : ℕ) → nat_beq (suc n) 0 ≡ false
nonempty n = ground arith

module _ {M : Type 0} where
  -- The messages in the order in which they were put: those sent, the one being sent, the rest
  abbrev pub everything : Buffer M → List M
  everything b = b.sent ++ (option_list b.in_flight ++ b.pending)

  get_pending-everything :
      (b : Buffer M) (ms : List M)
      → b.pending ≡ ms
      → b.in_flight ≡ none
      → everything (get_pending b ms) ≡ b.sent ++ ms
  get_pending-everything b [] p e =
      ap (λ o. b.sent ++ (option_list o ++ b.pending)) e ∙ ap (λ ms. b.sent ++ ms) p
  get_pending-everything b (m ∷ ms) p e = refl

  handle_pending-everything :
      (b : Buffer M) (o : Option M) → b.in_flight ≡ o → everything (work_on b o) ≡ everything b
  handle_pending-everything b none e =
      get_pending-everything b b.pending refl e
      ∙ ap (λ o. b.sent ++ (option_list o ++ b.pending)) (sym e)
  handle_pending-everything b (some m) e =
      append_assoc b.sent (m ∷ []) b.pending
      ∙ ap (λ o. b.sent ++ (option_list o ++ b.pending)) (sym e)

  -- The messages that are put
  abbrev pub put_in : List (Act M) → List M
  put_in [] = []
  put_in (puts m ∷ acts) = m ∷ put_in acts
  put_in (works ∷ acts) = put_in acts

  act_all-everything :
      (b : Buffer M) (acts : List (Act M))
      → everything (act_all b acts) ≡ everything b ++ put_in acts
  unfolding act_all put handle_pending
  act_all-everything b [] = sym (append-nil (everything b))
  act_all-everything b (puts m ∷ acts) =
      act_all-everything (put b m) acts
      ∙ ap (λ ms. ms ++ put_in acts) (put_last b.sent (option_list b.in_flight) b.pending m)
      ∙ append_assoc (everything b) (m ∷ []) (put_in acts)
    where
      put_last :
          (xs ys zs : List M) (z : M) → xs ++ (ys ++ (zs ++ z ∷ [])) ≡ (xs ++ (ys ++ zs)) ++ z ∷ []
      put_last xs ys zs z =
          ap (λ ws. xs ++ ws) (sym (append_assoc ys zs (z ∷ [])))
          ∙ sym (append_assoc xs (ys ++ zs) (z ∷ []))
  act_all-everything b (works ∷ acts) =
      act_all-everything (handle_pending b) acts
      ∙ ap (λ ms. ms ++ put_in acts) (handle_pending-everything b b.in_flight refl)

  -- The messages put during the waits that took place: some of the waits given, from the first on
  abbrev pub PutDuring : List (List (Act M)) → List M → Type 0
  PutDuring [] ms = ms ≡ []
  PutDuring (acts ∷ waits) ms =
      (ms ≡ []) ⊎ ((rest : List M) × (ms ≡ put_in acts ++ rest) × PutDuring waits rest)

  nothing_put : (waits : List (List (Act M))) → PutDuring waits []
  nothing_put [] = refl
  nothing_put (acts ∷ waits) = inl refl

  -- The order of the messages is kept, and none is lost.
  abbrev pub KeepsOrder : Buffer M → List (List (Act M)) → Buffer M × Result ℕ → Type 0
  KeepsOrder b waits r = (ms : List M) × (everything r.0 ≡ everything b ++ ms) × PutDuring waits ms

  stays : (b : Buffer M) (waits : List (List (Act M))) (r : Result ℕ) → KeepsOrder b waits (b, r)
  stays b waits r = ([], sym (append-nil (everything b)), nothing_put waits)

  -- However a flush of the producer's buffer ends, the messages sent, then the one being sent,
  -- then those waiting, are the ones there were before, in the same order, followed by those put
  -- during the waits that took place: all messages of some of the given waits, from the first one
  -- on.
  pub flush_atmost-everything :
      (max_messages : Option ℕ) (flushed : ℕ) (waits : List (List (Act M))) (b : Buffer M)
      → KeepsOrder b waits (flush_atmost max_messages flushed waits b)
  unfolding flush_atmost
  flush_atmost-everything max_messages flushed [] b =
      let left = not (nat_beq (size b) 0) in
      let P = KeepsOrder b [] in
      let stay = λ (r : Result ℕ). stays b [] r in
      let more =
        if left && below flushed max_messages then (b, err out_of_fuel) else (b, ok flushed) in
      either P (not b.is_running && left) (b, err runtime_error) more (stay (err runtime_error))
        (either P (left && below flushed max_messages) (b, err out_of_fuel) (b, ok flushed)
          (stay (err out_of_fuel)) (stay (ok flushed)))
  flush_atmost-everything max_messages flushed (acts ∷ waits) b =
      let b' = act_all (record b { message_sent = false }) acts in
      let acted : everything b' ≡ everything b ++ put_in acts =
        act_all-everything (record b { message_sent = false }) acts in
      let (ms, kept, during) = flush_atmost-everything max_messages (flushed + 1) waits b' in
      let stay = λ (r : Result ℕ). stays b (acts ∷ waits) r in
      let waited : KeepsOrder b (acts ∷ waits) (b', ok flushed) =
        (put_in acts, acted, inr ([], sym (append-nil (put_in acts)), nothing_put waits)) in
      let next = flush_atmost max_messages (flushed + 1) waits b' in
      let later : KeepsOrder b (acts ∷ waits) next = (
        put_in acts ++ ms,
        kept ∙ ap (λ xs. xs ++ ms) acted ∙ append_assoc (everything b) (put_in acts) ms,
        inr (ms, refl, during),
      ) in
      let P = KeepsOrder b (acts ∷ waits) in
      let left = not (nat_beq (size b) 0) in
      let tried = if b'.message_sent then next else (b', ok flushed) in
      let more = if left && below flushed max_messages then tried else (b, ok flushed) in
      either P (not b.is_running && left) (b, err runtime_error) more (stay (err runtime_error))
        (either P (left && below flushed max_messages) tried (b, ok flushed)
          (either P b'.message_sent next (b', ok flushed) later waited) (stay (ok flushed)))

  -- A buffer of a running producer that is sending `m`
  abbrev pub sending : List M → M → List M → Bool → Buffer M
  sending sent m ms flag = record {
    pending = ms;
    in_flight = some m;
    sent = sent;
    message_sent = flag;
    is_running = true;
  }

  flush_none :
      (flushed : ℕ) (sent : List M) (m : M) (flag : Bool)
      → flush_atmost none flushed [] (sending sent m [] flag) ≡ (sending sent m [] flag, ok flushed)
  unfolding flush_atmost size
  flush_none flushed sent m flag = refl

  pub flush_one :
      (max_messages : Option ℕ) (flushed : ℕ) (waits : List (List (Act M))) (sent : List M)
      (m n : M) (ms : List M) (flag : Bool)
      → below flushed max_messages ≡ true
      → flush_atmost max_messages flushed
          ((works ∷ works ∷ []) ∷ waits)
          (sending sent m (n ∷ ms) flag)
        ≡ flush_atmost max_messages (flushed + 1) waits (sending (sent ++ m ∷ []) n ms true)
  unfolding flush_atmost size act_all put handle_pending
  flush_one max_messages flushed waits sent m n ms flag h =
      rw (nonempty (length ms), h, flush_atmost) refl

  -- Where a running producer is sending a message, no message is put, and in each of as many waits
  -- as there are messages waiting the message being sent is sent and another one is taken: a flush
  -- without a limit returns with no message waiting and the last message still being sent; all
  -- others are sent, in order.
  pub flush-leaves_last :
      (flushed : ℕ) (sent : List M) (m : M) (ms : List M) (flag : Bool)
      → (earlier : List M) × (last : M) × (flag' : Bool) × (flush_atmost none flushed
            (replicate (length ms) (works ∷ works ∷ []))
            (sending sent m ms flag)
          ≡ (sending earlier last [] flag', ok (flushed + length ms)))
        × (earlier ++ last ∷ [] ≡ sent ++ m ∷ ms)
  flush-leaves_last flushed sent m [] flag = (
    sent,
    m,
    flag,
    flush_none flushed sent m flag ∙ ap (λ (k : ℕ). (sending sent m [] flag, ok k)) (omega arith),
    refl,
  )
  flush-leaves_last flushed sent m (n ∷ ms) flag =
      let (earlier, last, flag', e, order) =
        flush-leaves_last (flushed + 1) (sent ++ m ∷ []) n ms true in
      (
        earlier,
        last,
        flag',
        flush_one none flushed (replicate (length ms) (works ∷ works ∷ [])) sent m n ms flag refl
            ∙ e
            ∙ ap (λ (k : ℕ). (sending earlier last [] flag', ok k)) (omega arith),
        order ∙ append_assoc sent (m ∷ []) (n ∷ ms),
      )
