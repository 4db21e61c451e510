-- ===== src/Producer/Ebb.antt =====
-- What is left when the producer's buffer has ebbed.
use faust.Common.{
  ℕ, zero, suc, ◌+◌, ◌<◌, ◌≡◌, ap, ◌∙◌, arith, Bool, true, false, List, [], ◌∷◌, ◌++◌, some, length,
  ltb, ok, replicate,
}
use faust.Producer.{Buffer, works, size, flush_atmost, wait_until_ebb}
use faust.Producer.Flushing.{sending, flush_one}

module _ {M : Type 0} where
  -- The limit is reached.
  flush_limit :
      (flushed : ℕ) (sent : List M) (m : M) (ms : List M) (flag : Bool)
      → flush_atmost (some flushed) flushed [] (sending sent m ms flag)
        ≡ (sending sent m ms flag, ok flushed)
  unfolding flush_atmost
  flush_limit flushed sent m ms flag =
      let limit : ltb flushed flushed ≡ false = ground arith in rw limit (ground arith)

  flush_each_one :
      (k r flushed : ℕ) (sent : List M) (m : M) (ms : List M) (flag : Bool)
      → length ms ≡ k + r
      → (b : Buffer M) × (flush_atmost
            (some (k + flushed))
            flushed
            (replicate k (works ∷ works ∷ []))
            (sending sent m ms flag)
          ≡ (b, ok (k + flushed)))
        × (size b ≡ r)
  unfolding size
  flush_each_one zero r flushed sent m ms flag h = (
    sending sent m ms flag,
    ap (λ (n : ℕ). flush_atmost (some n) flushed [] (sending sent m ms flag)) (omega arith)
        ∙ flush_limit flushed sent m ms flag
        ∙ ap (λ (n : ℕ). (sending sent m ms flag, ok n)) (omega arith),
    omega (arith, h),
  )
  flush_each_one (suc k) r flushed sent m [] flag h = absurd (omega (arith, h))
  flush_each_one (suc k) r flushed sent m (n ∷ ms) flag h =
      let (b, e, left) =
        flush_each_one k r (flushed + 1) (sent ++ m ∷ []) n ms true (omega (arith, h)) in
      let limit : k + (flushed + 1) ≡ suc k + flushed = omega arith in
      (
        b,
        flush_one (some (suc k + flushed)) flushed (replicate k (works ∷ works ∷ [])) sent m n ms
              flag (ground arith)
            ∙ rw limit at e,
        left,
      )

  -- Where a running producer is sending a message, more than `max_messages` are waiting, no message
  -- is put, and one is sent and one taken in each wait: `wait_until_ebb` returns after `max_messages`
  -- waits, with that many fewer waiting, however many are left.
  pub wait_until_ebb-left :
      (max_messages r : ℕ) (sent : List M) (m : M) (ms : List M) (flag : Bool)
      → max_messages < length ms
      → length ms ≡ max_messages + r
      → (b : Buffer M) × (wait_until_ebb max_messages
            (replicate max_messages (works ∷ works ∷ []))
            (sending sent m ms flag)
          ≡ (b, ok max_messages))
        × (size b ≡ r)
  unfolding wait_until_ebb
  wait_until_ebb-left max_messages r sent m ms flag h e =
      let (b, done, left) = flush_each_one max_messages r 0 sent m ms flag e in
      let over : ltb max_messages (length ms) ≡ true = ground (arith, h) in
      let zero_more : max_messages + 0 ≡ max_messages = omega arith in
      let flushed_all : flush_atmost (some max_messages) 0
            (replicate max_messages (works ∷ works ∷ [])) (sending sent m ms flag)
          ≡ (b, ok max_messages) =
        rw zero_more at done in
      (b, rw (over, wait_until_ebb) flushed_all, left)
