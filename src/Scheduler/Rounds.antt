-- ===== src/Scheduler/Rounds.antt =====
-- The round robin over topics delivers every record once, and the records of a partition in order.
use faust.Common.{
  ℕ, zero, suc, ◌+◌, ◌≤◌, ◌≡◌, refl, sym, ap, ◌∙◌, true, false, List, [], ◌∷◌, ◌++◌, Option, none,
  some, arith, String, string_eq, ◌==◌, length, Bool-cases, inl, inr,
}
use mathlib.Core.List.{append-nil, append_assoc}
use faust.Common.Dict.{Dict, get}
use faust.Types.{Tp, tp_eq, tp_beq_iff}
use faust.Scheduler.{TopicBuffer, next_record, buffer_or_new, round, records_iterator}
use faust.Scheduler.Buffers.{only, messages, total, contents, IsOf}
use faust.Scheduler.Passes.{AfterNext, next_record_lem}

module _ {M : Type 0} where
  -- The records of a partition among those that were delivered
  unfoldable pub delivered : Tp → List (Tp × M) → List M
  delivered tp [] = []
  delivered tp ((q, m) ∷ items) = only (q == tp) (m ∷ []) ++ delivered tp items

  delivered-append :
      (tp : Tp) (xs ys : List (Tp × M))
      → delivered tp (xs ++ ys) ≡ delivered tp xs ++ delivered tp ys
  unfolding delivered
  delivered-append tp [] ys = refl
  delivered-append tp ((q, m) ∷ xs) ys =
      ap (λ ms. only (q == tp) (m ∷ []) ++ ms) (delivered-append tp xs ys)
      ∙ sym (append_assoc (only (q == tp) (m ∷ [])) (delivered tp xs) (delivered tp ys))

  -- Every topic once, with its own partitions
  abbrev pub IsIndex : Dict String (TopicBuffer M) → Type 0
  IsIndex [] = Unit
  IsIndex ((topic, b) ∷ index) = (get index topic ≡ none) × IsOf topic (contents b) × IsIndex index

  abbrev pub buffer_at : Dict String (TopicBuffer M) → String → TopicBuffer M
  buffer_at index topic = buffer_or_new (get index topic)

  -- What is left of a partition, and of all of them
  abbrev pub left : Dict String (TopicBuffer M) → Tp → List M
  left index tp = messages tp (contents (buffer_at index tp.topic))

  unfoldable pub total_left : Dict String (TopicBuffer M) → ℕ
  total_left [] = 0
  total_left ((topic, b) ∷ index) = total (contents b) + total_left index

  abbrev next_index :
      String
      → Option ((Tp × M) × TopicBuffer M)
      → List (Tp × M) × Dict String (TopicBuffer M)
      → List (Tp × M) × Dict String (TopicBuffer M)
  next_index topic none rest = rest
  next_index topic (some (item, b)) rest = (item ∷ rest.0, (topic, b) ∷ rest.1)

  round-cons :
      (topic : String) (b : TopicBuffer M) (index : Dict String (TopicBuffer M))
      → round ((topic, b) ∷ index) ≡ next_index topic (next_record b) (round index)
  unfolding round
  round-cons topic b index = go (next_record b)
    where
      go :
          (o : Option ((Tp × M) × TopicBuffer M))
          → (elim o as (λ x. List (Tp × M) × Dict String (TopicBuffer M)) [
            | none ↦ round index
            | some (item, b') ↦ (item ∷ (round index).0, (topic, b') ∷ (round index).1)
          ])
            ≡ next_index topic o (round index)
      go none = refl
      go (some (item, b')) = refl

  -- A round invents no topic.
  get-round :
      (index : Dict String (TopicBuffer M)) (t : String)
      → get index t ≡ none
      → get (round index).1 t ≡ none
  unfolding get round
  get-round [] t h = refl
  get-round ((topic, b) ∷ index) t h =
      rw (round-cons topic b index)
        (go (next_record b) (ground (arith, get-round index t, h)) (ground (arith, h)))
    where
      go :
          (o : Option ((Tp × M) × TopicBuffer M))
          → get (round index).1 t ≡ none
          → (topic == t) ≡ false
          → get (next_index topic o (round index)).1 t ≡ none
      go none r n = r
      go (some (item, b')) r n = ground (arith, r, n)

  -- What a round leaves: of what was left it took as many records as topics remain.
  abbrev pub AfterRound :
      Dict String (TopicBuffer M) → List (Tp × M) × Dict String (TopicBuffer M) → Type 0
  AfterRound index r =
      IsIndex r.1
      × (total_left index ≡ length r.1 + total_left r.1)
      × ((tp : Tp) → left index tp ≡ delivered tp r.0 ++ left r.1 tp)

  left_absent :
      (index : Dict String (TopicBuffer M)) (tp : Tp)
      → get index tp.topic ≡ none
      → left index tp ≡ []
  unfolding messages
  left_absent index tp h = rw h refl

  left_here :
      (topic : String) (b : TopicBuffer M) (index : Dict String (TopicBuffer M)) (tp : Tp)
      → (topic == tp.topic) ≡ true
      → left ((topic, b) ∷ index) tp ≡ messages tp (contents b)
  unfolding get
  left_here topic b index tp y = rw y refl

  left_later :
      (topic : String) (b : TopicBuffer M) (index : Dict String (TopicBuffer M)) (tp : Tp)
      → (topic == tp.topic) ≡ false
      → left ((topic, b) ∷ index) tp ≡ left index tp
  unfolding get
  left_later topic b index tp n = rw n refl

  nil_of_append : (xs ys : List M) → xs ++ ys ≡ [] → xs ≡ []
  nil_of_append [] ys e = refl
  nil_of_append (x ∷ xs) ys e = cc

  module _ (topic : String) (b : TopicBuffer M) (index : Dict String (TopicBuffer M))
      (absent : get index topic ≡ none) (rest : AfterRound index (round index)) where
    delivered_none :
        (tp : Tp)
        → (topic == tp.topic) ≡ true
        → (delivered tp (round index).0 ≡ []) × (left index tp ≡ [])
    delivered_none tp y =
        let gone : left index tp ≡ [] =
          left_absent index tp (rw (sym ((string_eq.beq_iff topic tp.topic).0 y)) absent) in
        (
          nil_of_append (delivered tp (round index).0) (left (round index).1 tp)
              (sym (rest.2 tp) ∙ gone),
          gone,
        )

    extend_lem :
        (o : Option ((Tp × M) × TopicBuffer M))
        → AfterNext topic (contents b) o
        → AfterRound ((topic, b) ∷ index) (next_index topic o (round index))
    unfolding total_left delivered
    extend_lem none a = (
      rest.0,
      omega (arith, rest.1, a.0),
      λ tp. elim (Bool-cases (topic == tp.topic)) [
        | inl y ↦ left_here topic b index tp y ∙ a.1 tp ∙ sym ((delivered_none tp y).1) ∙ rest.2 tp
        | inr n ↦ left_later topic b index tp n ∙ rest.2 tp
      ],
    )
    extend_lem (some (item, b')) a = (
      (get-round index topic absent, a.1, rest.0),
      omega (arith, rest.1, a.2),
      λ tp. elim (Bool-cases (topic == tp.topic)) [
        | inl y ↦
            left_here topic b index tp y
            ∙ a.3 tp
            ∙ rw ((delivered_none tp y).0, left_here topic b' (round index).1 tp y)
                (ap (λ ms. ms ++ messages tp (contents b'))
                  (sym (append-nil (only (item.0 == tp) (item.1 ∷ [])))))
        | inr n ↦
            let other : (item.0 == tp) ≡ false =
              ground (arith, n, a.0, string_eq.beq_iff topic tp.topic, tp_beq_iff item.0 tp) in
            left_later topic b index tp n
            ∙ rest.2 tp
            ∙ rw (other, left_later topic b' (round index).1 tp n) refl
      ],
    )

  round_lem : (index : Dict String (TopicBuffer M)) → IsIndex index → AfterRound index (round index)
  unfolding round total_left delivered get messages
  round_lem [] h = (tt, omega arith, λ tp. refl)
  round_lem ((topic, b) ∷ index) h = rw (round-cons topic b index) (
      extend_lem topic b index h.0 (round_lem index h.2) (next_record b)
        (next_record_lem topic b h.1))

  -- Enough rounds: as many as there are records and topics.
  pub records_iterator_lem :
      (fuel : ℕ) (index : Dict String (TopicBuffer M))
      → IsIndex index
      → length index + total_left index ≤ fuel
      → (items : List (Tp × M)) × (records_iterator fuel index ≡ some items)
        × ((tp : Tp) → delivered tp items ≡ left index tp)
  unfolding records_iterator delivered get messages
  records_iterator_lem fuel [] h k = ([], refl, λ tp. refl)
  records_iterator_lem zero (e ∷ index) h k = absurd (omega arith)
  records_iterator_lem (suc fuel) (e ∷ index) h k =
      let after = round_lem (e ∷ index) h in
      let (items, run, same) =
        records_iterator_lem fuel (round (e ∷ index)).1 after.0 (omega (arith, after.1, k)) in
      (
        (round (e ∷ index)).0 ++ items,
        rw (run, records_iterator) refl,
        λ tp.
            delivered-append tp (round (e ∷ index)).0 items
            ∙ ap (λ ms. delivered tp (round (e ∷ index)).0 ++ ms) (same tp)
            ∙ sym (after.2 tp),
      )
