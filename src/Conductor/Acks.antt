-- ===== src/Conductor/Acks.antt =====
-- `Event.ack` of faust/events.py on the message of the consumer: the consumer hears of the
-- message when the last of the channels has acknowledged it.
use faust.Common.{
  ℕ, zero, suc, ◌+◌, ◌-◌, ◌<◌, ◌≡◌, ap, ◌∙◌, Bool, true, false, arith, String, nat_eq,
}
use faust.Types.{Message, ack, decref}
use faust.Consumer.{Consumer}
use faust.Consumer.Intervals.{IntervalTree}
use faust.Consumer.Acks

module _ (it : IntervalTree) where
  -- `ConsumerMessage.on_final_ack`: the consumer, the message, and the result.
  abbrev pub on_final_ack :
      Consumer it → (String → Bool) → Message × Bool → Consumer it × Message × Bool
  on_final_ack c acks_enabled_for (m, true) = Acks.ack it c acks_enabled_for m
  on_final_ack c acks_enabled_for (m, false) = (c, m, false)

  unfoldable pub event_ack : Consumer it → (String → Bool) → Message → Consumer it × Message × Bool
  event_ack c acks_enabled_for m = on_final_ack c acks_enabled_for (ack m 1)

  -- The acknowledgements of several channels, one after the other
  unfoldable pub event_acks : Consumer it → (String → Bool) → Message → ℕ → Consumer it × Message
  unfolding event_ack
  event_acks c acks_enabled_for m zero = (c, m)
  event_acks c acks_enabled_for m (suc n) =
      let r = event_ack c acks_enabled_for m in event_acks r.0 acks_enabled_for r.1 n

  event_ack-step :
      (c : Consumer it) (acks_enabled_for : String → Bool) (m : Message)
      → m.acked ≡ false
      → 1 < m.refcount
      → event_ack c acks_enabled_for m ≡ (c, record m { refcount = m.refcount - 1 }, false)
  unfolding event_ack ack decref
  event_ack-step c acks_for m fresh h = ground (arith, fresh, h)

  event_acks-step :
      (c : Consumer it) (acks_enabled_for : String → Bool) (m : Message) (n : ℕ)
      → m.acked ≡ false
      → n < m.refcount
      → event_acks c acks_enabled_for m n ≡ (c, record m { refcount = m.refcount - n })
  unfolding event_acks
  event_acks-step c acks_for m zero fresh h =
      ap (λ (k : ℕ). (c, record m { refcount = k })) (omega arith)
  event_acks-step c acks_for m (suc n) fresh h =
      let rest =
        event_acks-step c acks_for (record m { refcount = m.refcount - 1 }) n fresh (omega arith) in
      ap (λ (r : Consumer it × Message × Bool). event_acks r.0 acks_for r.1 n)
        (event_ack-step c acks_for m fresh (omega arith))
      ∙ rest
      ∙ ap (λ (k : ℕ). (c, record m { refcount = k })) (omega arith)

  pub event_ack-last :
      (c : Consumer it) (acks_enabled_for : String → Bool) (m : Message)
      → m.acked ≡ false
      → m.refcount ≡ 1
      → event_ack c acks_enabled_for m ≡ Acks.ack it c acks_enabled_for (record m { refcount = 0 })
  unfolding event_ack ack decref
  event_ack-last c acks_for m fresh h =
      let last : ack m 1 ≡ (record m { refcount = 0 }, true) = ground (arith, fresh, h) in
      ap (on_final_ack c acks_for) last

  -- Where the message is not acknowledged yet and its reference count is n + 1: the first n
  -- acknowledgements of its event change nothing in the consumer, and the one after them is the
  -- consumer's own acknowledgement of the message.
  pub event_acks_lem :
      (c : Consumer it) (acks_enabled_for : String → Bool) (m : Message) (n : ℕ)
      → m.acked ≡ false
      → m.refcount ≡ n + 1
      → ((event_acks c acks_enabled_for m n).0 ≡ c)
        × (event_ack
              (event_acks c acks_enabled_for m n).0
              acks_enabled_for
              (event_acks c acks_enabled_for m n).1
            ≡ Acks.ack it c acks_enabled_for (record m { refcount = 0 }))
  event_acks_lem c acks_for m n fresh h =
      let ready = event_acks-step c acks_for m n fresh (omega arith) in
      (
        ap (λ r. r.0) ready,
        ap (λ (r : Consumer it × Message). event_ack r.0 acks_for r.1) ready
            ∙ event_ack-last c acks_for (record m { refcount = m.refcount - n }) fresh
                (omega arith),
      )
