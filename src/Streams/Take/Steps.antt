-- ===== src/Streams/Take/Steps.antt =====
-- Each step of `take` keeps the invariant.
use faust.Common.{
  ℕ, ◌≤◌, ◌<◌, ◌≡◌, ◌≢◌, inl, inr, refl, sym, ap, ◌∙◌, arith, Bool, true, false, List, [], ◌∷◌,
  ◌++◌, Option, if◌then◌else◌, length, Bool-cases,
}
use mathlib.Core.Path.{subst}
use mathlib.Core.List.{append-nil, append_assoc}
use faust.Streams.Take.{
  Variant, Adder, idle, blocked, full, ended, Consuming, unset, pending, done, Taking, option_list,
  buffer_entry, add, wait_or_add, give_unless_empty, after_batch,
}
use faust.Streams.Take.Invariant.{
  entries_in, events_in, given, All-snoc, given-snoc, left, with_entry, with_event, entries_of,
  events_of, entries_of-snoc, events_of-snoc, HasAcked, HasRoom, IsBatch, IsTaking, add-IsTaking,
}

module _ {V E X : Type 0} (variant : Variant V E X) (max_ : ℕ) where
  module _ (received : List (V × Option E)) (s : Taking V E X)
      (h : IsTaking variant max_ received s) where
    abbrev entries_with : Adder V E → List X
    entries_with w = given entries_in s.batches ++ with_entry variant w (left s.yielded s.buffer)

    abbrev events_with : Adder V E → List E
    events_with w = given events_in s.batches ++ with_event w (left s.yielded s.events)

    not_yielded : s.consuming ≢ pending → s.yielded ≡ false
    not_yielded n = elim (Bool-cases s.yielded) [ inl y ↦ absurd (n (h.held y)) | inr z ↦ z ]

    entries_idle :
        (v : V) (e : Option E)
        → s.adder ≡ idle
        → entries_with (blocked v e) ≡ entries_of variant (received ++ (v, e) ∷ [])
    entries_idle v e a =
        sym (
          append_assoc (given entries_in s.batches) (left s.yielded s.buffer)
            (buffer_entry variant v e))
        ∙ ap (λ xs. xs ++ buffer_entry variant v e) (ap entries_with (sym a) ∙ h.all_entries)
        ∙ sym (entries_of-snoc variant received v e)

    events_idle :
        (v : V) (e : Option E)
        → s.adder ≡ idle
        → events_with (blocked v e) ≡ events_of (received ++ (v, e) ∷ [])
    events_idle v e a =
        sym (append_assoc (given events_in s.batches) (left s.yielded s.events) (option_list e))
        ∙ ap (λ xs. xs ++ option_list e) (ap events_with (sym a) ∙ h.all_events)
        ∙ sym (events_of-snoc received v e)

    added :
        (now : List (V × Option E)) (v : V) (e : Option E)
        → s.consuming ≢ pending
        → length s.buffer < max_
        → entries_with (blocked v e) ≡ entries_of variant now
        → events_with (blocked v e) ≡ events_of now
        → IsTaking variant max_ now (add variant max_ s v e)
    added now v e n l p q =
        let y = not_yielded n in
        add-IsTaking variant max_ now s v e y l
          (subst (λ b. HasAcked variant.acks b s.acked s.events s.batches) y h.acknowledged)
          h.batched
          (ap (λ b. given entries_in s.batches ++ (left b s.buffer ++ buffer_entry variant v e))
              (sym y)
            ∙ p)
          (ap (λ b. given events_in s.batches ++ (left b s.events ++ option_list e)) (sym y) ∙ q)

    pub receive-IsTaking :
        (v : V) (e : Option E) (c : Consuming)
        → s.adder ≡ idle
        → s.consuming ≡ c
        → IsTaking variant max_ (received ++ (v, e) ∷ []) (wait_or_add variant max_ s c v e)
    receive-IsTaking v e unset a c =
        added (received ++ (v, e) ∷ []) v e (λ q. cc) (subst (λ w. HasRoom max_ w s) a h.room)
          (entries_idle v e a) (events_idle v e a)
    receive-IsTaking v e done a c =
        added (received ++ (v, e) ∷ []) v e (λ q. cc) (subst (λ w. HasRoom max_ w s) a h.room)
          (entries_idle v e a) (events_idle v e a)
    receive-IsTaking v e pending a c = record {
      all_entries = entries_idle v e a;
      all_events = events_idle v e a;
      acknowledged = h.acknowledged;
      batched = h.batched;
      room = (subst (λ w. HasRoom max_ w s) a h.room, λ q. cc);
      held = h.held;
      kept = h.kept;
    }

    pub resume_adding-IsTaking :
        (v : V) (e : Option E)
        → s.adder ≡ blocked v e
        → s.consuming ≡ done
        → IsTaking variant max_ received (add variant max_ s v e)
    resume_adding-IsTaking v e a c =
        added received v e (λ q. cc) (subst (λ w. HasRoom max_ w s) a h.room).0
          (ap entries_with (sym a) ∙ h.all_entries) (ap events_with (sym a) ∙ h.all_events)

    pub resume_consumed-IsTaking :
        s.adder ≡ full
        → s.buffer_consumed ≡ true
        → IsTaking variant max_ received (record s { adder = idle })
    resume_consumed-IsTaking a c = record {
      all_entries = ap entries_with (sym a) ∙ h.all_entries;
      all_events = ap events_with (sym a) ∙ h.all_events;
      acknowledged = h.acknowledged;
      batched = h.batched;
      room = elim (subst (λ w. HasRoom max_ w s) a h.room).1 [ inl r ↦ r.1 | inr r ↦ absurd (cc) ];
      held = h.held;
      kept = h.kept;
    }

    split_entry :
        (w : Adder V E) (xs : List X) → with_entry variant w xs ≡ xs ++ with_entry variant w []
    split_entry idle xs = sym (append-nil xs)
    split_entry (blocked v e) xs = refl
    split_entry full xs = sym (append-nil xs)
    split_entry ended xs = sym (append-nil xs)

    split_event : (w : Adder V E) (es : List E) → with_event w es ≡ es ++ with_event w []
    split_event idle es = sym (append-nil es)
    split_event (blocked v e) es = refl
    split_event full es = sym (append-nil es)
    split_event ended es = sym (append-nil es)

    wake_entries :
        (b : List X × List E)
        → s.yielded ≡ false
        → given entries_in (s.batches ++ (s.buffer, b.1) ∷ []) ++ with_entry variant s.adder []
          ≡ entries_of variant received
    wake_entries b y =
        ap (λ xs. xs ++ with_entry variant s.adder [])
          (given-snoc entries_in s.batches (s.buffer, b.1))
        ∙ append_assoc (given entries_in s.batches) s.buffer (with_entry variant s.adder [])
        ∙ ap (λ xs. given entries_in s.batches ++ xs) (sym (split_entry s.adder s.buffer))
        ∙ ap (λ c. given entries_in s.batches ++ with_entry variant s.adder (left c s.buffer))
            (sym y)
        ∙ h.all_entries

    wake_events :
        (b : List X × List E)
        → s.yielded ≡ false
        → given events_in (s.batches ++ (b.0, s.events) ∷ []) ++ with_event s.adder []
          ≡ events_of received
    wake_events b y =
        ap (λ xs. xs ++ with_event s.adder []) (given-snoc events_in s.batches (b.0, s.events))
        ∙ append_assoc (given events_in s.batches) s.events (with_event s.adder [])
        ∙ ap (λ xs. given events_in s.batches ++ xs) (sym (split_event s.adder s.events))
        ∙ ap (λ c. given events_in s.batches ++ with_event s.adder (left c s.events)) (sym y)
        ∙ h.all_events

    buffer_bound : (w : Adder V E) → HasRoom max_ w s → length s.buffer ≤ max_
    buffer_bound idle r = omega arith
    buffer_bound (blocked v e) r = omega arith
    buffer_bound full r = r.0
    buffer_bound ended r = r

    wake-HasRoom :
        (w : Adder V E) (batches : List (List X × List E))
        → HasRoom max_ w s
        → HasRoom max_ w (record s { consuming = pending; yielded = true; batches = batches })
    wake-HasRoom idle batches r = r
    wake-HasRoom (blocked v e) batches r = (r.0, λ q. cc)
    wake-HasRoom full batches r = r
    wake-HasRoom ended batches r = r

    wake-HasAcked :
        (acks : Bool) (b : List X × List E)
        → HasAcked acks false s.acked b.1 s.batches
        → HasAcked acks true s.acked b.1 (s.batches ++ b ∷ [])
    wake-HasAcked true b q = ap (λ es. es ++ b.1) q ∙ sym (given-snoc events_in s.batches b)
    wake-HasAcked false b q = q

    pub wake-IsTaking :
        (xs : List X)
        → s.buffer ≡ xs
        → s.yielded ≡ false
        → IsTaking variant max_ received (give_unless_empty variant max_ s xs)
    wake-IsTaking [] b y = h
    wake-IsTaking (x ∷ xs) b y =
        let batch : List X × List E = (s.buffer, s.events) in
        record {
          all_entries = wake_entries batch y;
          all_events = wake_events batch y;
          acknowledged =
              wake-HasAcked variant.acks batch
                (subst (λ c. HasAcked variant.acks c s.acked s.events s.batches) y h.acknowledged);
          batched =
              All-snoc (IsBatch max_) s.batches batch h.batched
                (omega (arith, ap length b), buffer_bound s.adder h.room);
          room = wake-HasRoom s.adder (s.batches ++ batch ∷ []) h.room;
          held = λ t. refl;
          kept = λ t. refl;
        }

    ask-HasRoom :
        (w : Adder V E) (acked : List E)
        → 0 < max_
        → HasRoom max_ w (record s {
          buffer = [];
          acked = acked;
          events = [];
          consuming = done;
          buffer_full = false;
          buffer_consumed = true;
          yielded = false;
        })
    ask-HasRoom idle acked m = m
    ask-HasRoom (blocked v e) acked m = (m, λ q. cc)
    ask-HasRoom full acked m = (omega arith, inl (refl, m))
    ask-HasRoom ended acked m = omega arith

    ask-HasAcked :
        (acks : Bool)
        → HasAcked acks true s.acked s.events s.batches
        → HasAcked acks false (if acks then s.acked ++ s.events else s.acked) [] s.batches
    ask-HasAcked true q = q
    ask-HasAcked false q = q

    pub ask-IsTaking :
        0 < max_ → s.yielded ≡ true → IsTaking variant max_ received (after_batch variant max_ s)
    unfolding after_batch
    ask-IsTaking m y = record {
      all_entries =
          ap (λ b. given entries_in s.batches ++ with_entry variant s.adder (left b s.buffer))
            (sym y)
          ∙ h.all_entries;
      all_events =
          ap (λ b. given events_in s.batches ++ with_event s.adder (left b s.events)) (sym y)
          ∙ h.all_events;
      acknowledged =
          ask-HasAcked variant.acks
            (subst (λ b. HasAcked variant.acks b s.acked s.events s.batches) y h.acknowledged);
      batched = h.batched;
      room = ask-HasRoom s.adder (if variant.acks then s.acked ++ s.events else s.acked) m;
      held = λ t. absurd (cc);
      kept = λ t. absurd (cc);
    }
