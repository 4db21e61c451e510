-- ===== src/Streams/Take/Invariant.antt =====
-- What holds between the steps of `take`, and of the processor that fills its buffer.
use faust.Common.{
  ℕ, ◌≤◌, ◌<◌, ◌≡◌, ◌≢◌, ◌⊎◌, inl, inr, refl, sym, ap, ◌∙◌, arith, Bool, true, false, List, [], ◌∷◌,
  ◌++◌, Option, none, some, length, length-append, leb, Bool-cases, All,
}
use mathlib.Core.List.{append-nil, append_assoc}
use faust.Streams.Take.{
  Variant, Adder, idle, blocked, full, ended, unset, pending, Taking, initial, option_list,
  buffer_entry, add,
}

abbrev pub entries_in : {X E : Type 0} → List X × List E → List X
entries_in b = b.0

abbrev pub events_in : {X E : Type 0} → List X × List E → List E
events_in b = b.1

-- All that was given, batch after batch
unfoldable pub given : {A B : Type 0} → (B → List A) → List B → List A
given f [] = []
given f (b ∷ batches) = f b ++ given f batches

pub length-option_list : {A : Type 0} (o : Option A) → length (option_list o) ≤ 1
length-option_list none = omega arith
length-option_list (some a) = omega arith

pub All-snoc :
    {B : Type 0} (P : B → Type 0) (xs : List B) (b : B) → All P xs → P b → All P (xs ++ b ∷ [])
All-snoc P [] b h p = (p, tt)
All-snoc P (x ∷ xs) b h p = (h.0, All-snoc P xs b h.1 p)

pub given-snoc :
    {A B : Type 0} (f : B → List A) (batches : List B) (b : B)
    → given f (batches ++ b ∷ []) ≡ given f batches ++ f b
unfolding given
given-snoc f [] b = append-nil (f b)
given-snoc f (c ∷ batches) b =
    ap (λ xs. f c ++ xs) (given-snoc f batches b) ∙ sym (append_assoc (f c) (given f batches) (f b))

-- What is in the buffer and not given yet, and then what waits to be added to it
abbrev pub left : {A : Type 0} → Bool → List A → List A
left true xs = []
left false xs = xs

module _ {X E : Type 0} where
  -- While the user has a batch, its events are not acknowledged yet.
  abbrev pub HasAcked : Bool → Bool → List E → List E → List (List X × List E) → Type 0
  HasAcked true true acked events batches = acked ++ events ≡ given events_in batches
  HasAcked true false acked events batches = acked ≡ given events_in batches
  HasAcked false yielded acked events batches = acked ≡ []

abbrev pub IsBatch : {X E : Type 0} → ℕ → List X × List E → Type 0
IsBatch max_ b = (0 < length b.0) × (length b.0 ≤ max_)

module _ {V E : Type 0} where
  unfoldable pub events_of : List (V × Option E) → List E
  events_of [] = []
  events_of ((v, e) ∷ received) = option_list e ++ events_of received

  abbrev pub with_event : Adder V E → List E → List E
  with_event idle es = es
  with_event (blocked v e) es = es ++ option_list e
  with_event full es = es
  with_event ended es = es

  pub events_of-snoc :
      (received : List (V × Option E)) (v : V) (e : Option E)
      → events_of (received ++ (v, e) ∷ []) ≡ events_of received ++ option_list e
  unfolding events_of
  events_of-snoc [] v e = append-nil (option_list e)
  events_of-snoc ((w, f) ∷ received) v e =
      ap (λ xs. option_list f ++ xs) (events_of-snoc received v e)
      ∙ sym (append_assoc (option_list f) (events_of received) (option_list e))

initial-HasAcked : (X E : Type 0) (acks : Bool) → HasAcked {X = X} {E = E} acks false [] [] []
unfolding given
initial-HasAcked X E true = refl
initial-HasAcked X E false = refl

more-HasAcked :
    {X E : Type 0} (acks : Bool) (acked events more : List E) (batches : List (List X × List E))
    → HasAcked acks false acked events batches
    → HasAcked acks false acked more batches
more-HasAcked true acked events more batches h = h
more-HasAcked false acked events more batches h = h

module _ {V E X : Type 0} (variant : Variant V E X) where
  -- The entries and the events of the values received
  unfoldable pub entries_of : List (V × Option E) → List X
  entries_of [] = []
  entries_of ((v, e) ∷ received) = buffer_entry variant v e ++ entries_of received

  abbrev pub with_entry : Adder V E → List X → List X
  with_entry idle xs = xs
  with_entry (blocked v e) xs = xs ++ buffer_entry variant v e
  with_entry full xs = xs
  with_entry ended xs = xs

  pub entries_of-snoc :
      (received : List (V × Option E)) (v : V) (e : Option E)
      → entries_of (received ++ (v, e) ∷ []) ≡ entries_of received ++ buffer_entry variant v e
  unfolding entries_of
  entries_of-snoc [] v e = append-nil (buffer_entry variant v e)
  entries_of-snoc ((w, f) ∷ received) v e =
      ap (λ xs. buffer_entry variant w f ++ xs) (entries_of-snoc received v e)
      ∙ sym
          (append_assoc (buffer_entry variant w f) (entries_of received) (buffer_entry variant v e))

module _ {V E X : Type 0} (max_ : ℕ) where
  -- How full the buffer is, and what the processor waits for
  abbrev pub HasRoom : Adder V E → Taking V E X → Type 0
  HasRoom idle s = length s.buffer < max_
  HasRoom (blocked v e) s = (length s.buffer < max_) × (s.consuming ≢ unset)
  HasRoom full s =
      (length s.buffer ≤ max_)
      × (((s.buffer_consumed ≡ true) × (length s.buffer < max_))
          ⊎ ((s.buffer_consumed ≡ false) × (s.buffer_full ≡ true) × (0 < length s.buffer)))
  HasRoom ended s = length s.buffer ≤ max_

module _ {V E X : Type 0} (variant : Variant V E X) (max_ : ℕ) where
  pub record IsTaking (received : List (V × Option E)) (s : Taking V E X) : Type 0 where
    pub all_entries :
        given entries_in s.batches ++ with_entry variant s.adder (left s.yielded s.buffer)
        ≡ entries_of variant received
    pub all_events :
        given events_in s.batches ++ with_event s.adder (left s.yielded s.events)
        ≡ events_of received
    pub acknowledged : HasAcked variant.acks s.yielded s.acked s.events s.batches
    pub batched : All (IsBatch max_) s.batches
    pub room : HasRoom max_ s.adder s
    pub held : (s.yielded ≡ true) → s.consuming ≡ pending
    pub kept : (s.consuming ≡ pending) → s.yielded ≡ true

  pub initial-IsTaking : 0 < max_ → IsTaking [] initial
  unfolding given entries_of events_of
  initial-IsTaking h = record {
    all_entries = refl;
    all_events = refl;
    acknowledged = initial-HasAcked X E variant.acks;
    batched = tt;
    room = h;
    held = λ e. absurd (cc);
    kept = λ e. absurd (cc);
  }

  -- Adding a value, once the future is not pending
  pub add-IsTaking :
      (received : List (V × Option E)) (s : Taking V E X) (v : V) (e : Option E)
      → s.yielded ≡ false
      → length s.buffer < max_
      → HasAcked variant.acks false s.acked s.events s.batches
      → All (IsBatch max_) s.batches
      → given entries_in s.batches ++ (s.buffer ++ buffer_entry variant v e)
        ≡ entries_of variant received
      → given events_in s.batches ++ (s.events ++ option_list e) ≡ events_of received
      → IsTaking received (add variant max_ s v e)
  unfolding add
  add-IsTaking received s v none y l a b p q = record {
    all_entries = rw y p;
    all_events = rw y (ap (λ es. given events_in s.batches ++ es) (sym (append-nil s.events)) ∙ q);
    acknowledged = rw y (more-HasAcked variant.acks s.acked s.events s.events s.batches a);
    batched = b;
    room = omega (
      arith,
      l,
      length-append s.buffer (option_list (variant.entry_without_event v)),
      length-option_list (variant.entry_without_event v),
    );
    held = λ t. absurd (cc);
    kept = λ t. absurd (cc);
  }
  add-IsTaking received s v (some e) y l a b p q =
      let buffer = s.buffer ++ variant.entry v e ∷ [] in
      let not_full : leb max_ (length buffer) ≡ false → length buffer < max_ = λ h. ground arith in
      let size = length-append s.buffer (variant.entry v e ∷ []) in
      elim (Bool-cases (leb max_ (length buffer))) [
        | inl f ↦ record {
          all_entries = rw (f, y) p;
          all_events = rw (f, y) q;
          acknowledged =
              rw y (more-HasAcked variant.acks s.acked s.events (s.events ++ e ∷ []) s.batches a);
          batched = b;
          room = rw f (omega (arith, size), inr (refl, refl, omega (arith, size)));
          held = λ t. absurd (cc);
          kept = λ t. absurd (cc);
        }
        | inr f ↦ record {
          all_entries = rw (f, y) p;
          all_events = rw (f, y) q;
          acknowledged =
              rw y (more-HasAcked variant.acks s.acked s.events (s.events ++ e ∷ []) s.batches a);
          batched = b;
          room = rw f (not_full f);
          held = λ t. absurd (cc);
          kept = λ t. absurd (cc);
        }
      ]
