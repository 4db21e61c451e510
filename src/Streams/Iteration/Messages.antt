-- ===== src/Streams/Iteration/Messages.antt =====
-- What arriving and departing values do to the messages.
use faust.Common.{
  ℕ, ◌-◌, ◌≡◌, refl, sym, ap, ◌∙◌, arith, Bool, true, false, ◌&&◌, List, Option, String,
  if◌then◌else◌, ◌==◌, nat_eq, nat_beq, nat_beq_iff, Bool-cases, inl, inr,
}
use faust.Types.{tp_eq, Message, ack, decref}
use faust.Consumer.{Consumer}
use faust.Consumer.Intervals.{IntervalTree}
use faust.Consumer.Acks
use faust.Conductor.Acks.{event_ack, on_final_ack}
use faust.Streams.Iteration.{
  Item, event, plain, Processed, App, Streaming, is_current, track, ack_event, arrive, depart,
}
use faust.Streams.Iteration.Given.{after_ack}

abbrev pub is_of : {V : Type 0} → Item V → ℕ → Bool
is_of (event e) i = e.ident == i
is_of (plain v) i = false

module _ (it : IntervalTree) where
  consumer_ack-message :
      (c : Consumer it) (acking : String → Bool) (m : Message)
      → m.acked ≡ false
      → (Acks.ack it c acking m).1 ≡ record m { acked = true }
  unfolding Acks.ack
  consumer_ack-message c acking m h = ground (arith, h)

  final_ack-message :
      (c : Consumer it) (acking : String → Bool) (m : Message) (b : Bool)
      → m.acked ≡ false
      → (on_final_ack it c acking (m, b)).1 ≡ record m { acked = b }
  final_ack-message c acking m true h = consumer_ack-message c acking m h
  final_ack-message c acking m false h = ap (λ b. record m { acked = b }) h

  event_ack-message :
      (c : Consumer it) (acking : String → Bool) (m : Message)
      → (event_ack it c acking m).1 ≡ after_ack m
  unfolding event_ack ack decref
  event_ack-message c acking m = elim (Bool-cases m.acked) [
    | inl y ↦ ground (arith, y)
    | inr n ↦
        let m' = record m { refcount = m.refcount - 1 } in
        let last = nat_beq (m.refcount - 1) 0 in
        let acked_once : ack m 1 ≡ (m', last) = ground (arith, n) in
        let after : after_ack m ≡ record m' { acked = last } = ground (arith, n) in
        ap (λ r. (on_final_ack it c acking r).1) acked_once
        ∙ final_ack-message c acking m' last n
        ∙ sym after
  ]

  module _ {V : Type 0} (acking : String → Bool) (processors : List (Option V → Processed V)) where
    track-messages :
        (s : Streaming it) (ident : ℕ) → (track it acking processors s ident).messages ≡ s.messages
    unfolding track
    track-messages s ident = ground arith

    pub arrive-messages :
        (s : Streaming it) (app : App) (item : Item V)
        → (arrive it acking processors s app item).messages ≡ s.messages
    unfolding arrive
    arrive-messages s app (event e) = elim (Bool-cases (is_current it acking processors app e)) [
      | inl y ↦ rw y (track-messages s e.ident)
      | inr n ↦ rw n refl
    ]
    arrive-messages s app (plain v) = refl

    ack_event-messages :
        (s : Streaming it) (ident i : ℕ)
        → (ack_event it acking processors s ident).messages i
          ≡ (if ident == i then after_ack (s.messages i) else s.messages i)
    unfolding ack_event
    ack_event-messages s ident i = elim (Bool-cases (ident == i)) [
      | inl y ↦ rw y (
          event_ack-message s.consumer acking (s.messages ident)
          ∙ ap (λ j. after_ack (s.messages j)) ((nat_beq_iff ident i).0 y))
      | inr n ↦ rw n refl
    ]

    pub depart-messages :
        (s : Streaming it) (item : Item V) (b : Bool) (i : ℕ)
        → (depart it acking processors s item b).messages i
          ≡ (if is_of item i && b then after_ack (s.messages i) else s.messages i)
    unfolding depart
    depart-messages s (event e) true i = ack_event-messages s e.ident i ∙ ground arith
    depart-messages s (event e) false i = ground arith
    depart-messages s (plain v) b i = refl
