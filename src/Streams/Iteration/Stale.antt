-- ===== src/Streams/Iteration/Stale.antt =====
-- An event that comes late, after the app has gone on to another generation.
use faust.Common.{
  ◌≡◌, refl, ap, ◌∙◌, arith, Bool, true, false, List, [], ◌∷◌, ◌++◌, Option, none, String, nat_eq,
  contains,
}
use faust.Common.Members.{contains-append}
use faust.Types.{tp_eq, Message}
use faust.Consumer.{Consumer, get_default, get_default-put_self}
use faust.Consumer.Intervals.{IntervalTree}
use faust.Consumer.Acks
use faust.Consumer.Acks.{is_new}
use faust.Conductor.Acks.{event_ack-last}
use faust.Streams.Iteration.{
  Event, event, Processed, App, Streaming, is_current, fate, ack_event, arrive, depart, iterate,
}

module _ (it : IntervalTree) (acking : String → Bool) where
  -- The consumer takes note of a new offset of a topic that it acknowledges.
  consumer_ack-acked :
      (c : Consumer it) (m : Message)
      → m.acked ≡ false
      → acking m.tp.topic ≡ true
      → is_new (get_default c.committed_offset m.tp none) m.offset ≡ true
      → contains (get_default c.acked_index m.tp []) m.offset ≡ false
      → contains (get_default (Acks.ack it c acking m).0.acked m.tp []) m.offset ≡ true
  unfolding Acks.ack
  consumer_ack-acked c m fresh topic new unknown =
      let old = get_default c.acked m.tp [] in
      rw (fresh, topic, new, unknown)
        (ap (λ xs. contains xs m.offset)
            (get_default-put_self c.acked m.tp (old ++ m.offset ∷ []) [])
          ∙ ground (arith, contains-append old (m.offset ∷ []) m.offset))

module _ (it : IntervalTree) {V : Type 0} (acking : String → Bool)
    (processors : List (Option V → Processed V)) where
  stale_step :
      (s : Streaming it) (app : App) (e : Event V)
      → is_current it acking processors app e ≡ false
      → iterate it acking processors s ((app, event e) ∷ [])
        ≡ (ack_event it acking processors s e.ident, [])
  unfolding iterate fate arrive depart
  stale_step s app e stale = rw (stale, iterate) (rw stale refl)

  -- An event that is not of the app's generation, or comes while flow control is not active, whose
  -- message is not acknowledged yet and has one reference left, in a topic with acks, at an offset
  -- that is not below the committed one and not acknowledged: the user is given nothing, and the
  -- consumer has the offset among those acknowledged.
  pub iterate-acks_stale :
      (s : Streaming it) (app : App) (e : Event V)
      → is_current it acking processors app e ≡ false
      → (s.messages e.ident).acked ≡ false
      → (s.messages e.ident).refcount ≡ 1
      → acking (s.messages e.ident).tp.topic ≡ true
      → is_new
          (get_default s.consumer.committed_offset (s.messages e.ident).tp none)
          (s.messages e.ident).offset
        ≡ true
      → contains
          (get_default s.consumer.acked_index (s.messages e.ident).tp [])
          (s.messages e.ident).offset
        ≡ false
      → ((iterate it acking processors s ((app, event e) ∷ [])).1 ≡ [])
        × (contains
              (get_default
                (iterate it acking processors s ((app, event e) ∷ [])).0.consumer.acked
                (s.messages e.ident).tp
                [])
              (s.messages e.ident).offset
            ≡ true)
  unfolding ack_event
  iterate-acks_stale s app e stale fresh one topic new unknown =
      let m = s.messages e.ident in
      let step = stale_step s app e stale in
      (
        ap (λ r. r.1) step,
        ap
              (λ (r : Streaming it × List (Option V)).
                contains (get_default r.0.consumer.acked m.tp []) m.offset)
              step
            ∙ ap
                (λ (r : Consumer it × Message × Bool).
                  contains (get_default r.0.acked m.tp []) m.offset)
                (event_ack-last it s.consumer acking m fresh one)
            ∙ consumer_ack-acked it acking s.consumer (record m { refcount = 0 }) fresh topic new
                unknown,
      )
