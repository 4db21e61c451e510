-- ===== src/Scheduler/Delivery.antt =====
-- What the consumer fetched, put into the index of topics, and delivered from it.
use faust.Common.{
  ℕ, ◌+◌, ◌≤◌, ◌≡◌, refl, sym, ap, ◌∙◌, Bool, true, false, List, [], ◌∷◌, ◌++◌, none, some, arith,
  String, string_eq, ◌==◌, length, Bool-cases, inl, inr,
}
use mathlib.Core.List.{append-nil, append_assoc}
use faust.Common.Dict.{Dict, get, put, get-put, HasDistinctKeys}
use faust.Types.{Tp, tp_eq, tp_beq_iff}
use faust.Scheduler.{TopicBuffer, add, new_buffer, index_records, map_from_records, iterate}
use faust.Scheduler.Buffers.{only, messages, total, contents, IsOf, messages_absent, add_lem}
use faust.Scheduler.Rounds.{delivered, IsIndex, buffer_at, left, total_left, records_iterator_lem}

module _ {M : Type 0} where
  -- None of the partitions has a buffer yet.
  abbrev IsNew : Dict String (TopicBuffer M) → List (Tp × List M) → Type 0
  IsNew index [] = Unit
  IsNew index ((q, ms) ∷ records) =
      (get (contents (buffer_at index q.topic)) q ≡ none) × IsNew index records

  abbrev with_buffer : Dict String (TopicBuffer M) → Tp → List M → Dict String (TopicBuffer M)
  with_buffer index q ms = put index q.topic (add (buffer_at index q.topic) q ms)

  get-put_other :
      (index : Dict String (TopicBuffer M)) (t u : String) (b : TopicBuffer M)
      → (t == u) ≡ false
      → get index u ≡ none
      → get (put index t b) u ≡ none
  get-put_other index t u b n h = ground (arith, get-put index t u b, n, h)

  put_lem :
      (index : Dict String (TopicBuffer M)) (q : Tp) (ms : List M)
      → IsIndex index
      → get (contents (buffer_at index q.topic)) q ≡ none
      → IsIndex (with_buffer index q ms)
        × (length (with_buffer index q ms) + total_left (with_buffer index q ms)
            ≤ 1 + length ms + length index + total_left index)
  unfolding put total_left get total
  put_lem [] q ms h absent =
      let a = add_lem q.topic new_buffer q ms refl refl tt in ((refl, a.0, tt), omega (arith, a.1))
  put_lem ((topic, b) ∷ index) q ms h absent = elim (Bool-cases (topic == q.topic)) [
    | inl y ↦
        let a =
          add_lem topic b q ms (sym ((string_eq.beq_iff topic q.topic).0 y))
            (ground (arith, absent, y)) h.1 in
        rw (y, put, get) ((h.0, a.0, h.2), omega (arith, a.1))
    | inr n ↦
        let later = put_lem index q ms h.2 (ground (arith, absent, n)) in
        rw (n, put, get)
          (
            (
              get-put_other index q.topic topic (add (buffer_at index q.topic) q ms)
                  (ground
                    (arith, n, string_eq.beq_iff topic q.topic, string_eq.beq_iff q.topic topic))
                  h.0,
              h.1,
              later.0,
            ),
            omega (arith, later.1),
          )
  ]

  buffer_at-IsOf :
      (index : Dict String (TopicBuffer M)) (t : String)
      → IsIndex index
      → IsOf t (contents (buffer_at index t))
  unfolding get
  buffer_at-IsOf [] t h = tt
  buffer_at-IsOf ((topic, b) ∷ index) t h = elim (Bool-cases (topic == t)) [
    | inl y ↦ rw (y, get, sym ((string_eq.beq_iff topic t).0 y)) h.1
    | inr n ↦ rw (n, get) (buffer_at-IsOf index t h.2)
  ]

  module _ (index : Dict String (TopicBuffer M)) (q : Tp) (ms : List M) (h : IsIndex index)
      (absent : get (contents (buffer_at index q.topic)) q ≡ none) where
    abbrev grown : TopicBuffer M
    grown = add (buffer_at index q.topic) q ms

    buffer_here :
        (t : String) → (q.topic == t) ≡ true → buffer_at (with_buffer index q ms) t ≡ grown
    buffer_here t y = rw (get-put index q.topic t grown, y) refl

    buffer_elsewhere :
        (t : String)
        → (q.topic == t) ≡ false
        → buffer_at (with_buffer index q ms) t ≡ buffer_at index t
    buffer_elsewhere t n = rw (get-put index q.topic t grown, n) refl

    left-put_before :
        (tp : Tp) → left (with_buffer index q ms) tp ≡ only (q == tp) ms ++ left index tp
    left-put_before tp = elim (Bool-cases (q.topic == tp.topic)) [
      | inl y ↦
          ap (λ b. messages tp (contents b)) (buffer_here tp.topic y)
          ∙ (add_lem q.topic (buffer_at index q.topic) q ms refl absent
                (buffer_at-IsOf index q.topic h)).2
              tp
          ∙ ap (λ t. only (q == tp) ms ++ messages tp (contents (buffer_at index t)))
              ((string_eq.beq_iff q.topic tp.topic).0 y)
      | inr n ↦
          let other : (q == tp) ≡ false = ground (arith, n) in
          ap (λ b. messages tp (contents b)) (buffer_elsewhere tp.topic n)
          ∙ sym (ap (λ b. only b ms ++ left index tp) other)
    ]

    left-put : (tp : Tp) → left (with_buffer index q ms) tp ≡ left index tp ++ only (q == tp) ms
    left-put tp =
        left-put_before tp
        ∙ swap (q == tp) (left index tp) (λ e.
          ap (λ j. messages j (contents (buffer_at index j.topic))) (sym ((tp_beq_iff q tp).0 e))
          ∙ messages_absent q (contents (buffer_at index q.topic)) absent)
      where
        swap : (b : Bool) (xs : List M) → (b ≡ true → xs ≡ []) → only b ms ++ xs ≡ xs ++ only b ms
        swap true xs e = rw (e refl) (append-nil ms)
        swap false xs e = sym (append-nil xs)

    still_absent :
        (j : Tp)
        → (q == j) ≡ false
        → get (contents (buffer_at index j.topic)) j ≡ none
        → get (contents (buffer_at (with_buffer index q ms) j.topic)) j ≡ none
    still_absent j n k = elim (Bool-cases (q.topic == j.topic)) [
      | inl y ↦
          ap (λ b. get (contents b) j) (buffer_here j.topic y)
          ∙ (add_lem q.topic (buffer_at index q.topic) q ms refl absent
                (buffer_at-IsOf index q.topic h)).3
              j n
              (ap (λ t. get (contents (buffer_at index t)) j)
                  ((string_eq.beq_iff q.topic j.topic).0 y)
                ∙ k)
      | inr m ↦ ap (λ b. get (contents b) j) (buffer_elsewhere j.topic m) ∙ k
    ]

  still-IsNew :
      (index : Dict String (TopicBuffer M)) (q : Tp) (ms : List M) (records : List (Tp × List M))
      → IsIndex index
      → get (contents (buffer_at index q.topic)) q ≡ none
      → get records q ≡ none
      → IsNew index records
      → IsNew (with_buffer index q ms) records
  unfolding get
  still-IsNew index q ms [] h absent n k = tt
  still-IsNew index q ms ((j, js) ∷ records) h absent n k = (
    still_absent index q ms h absent j (ground (arith, n, tp_beq_iff q j, tp_beq_iff j q)) k.0,
    still-IsNew index q ms records h absent (ground (arith, n)) k.1,
  )

  index_records_lem :
      (index : Dict String (TopicBuffer M)) (records : List (Tp × List M))
      → IsIndex index
      → HasDistinctKeys records
      → IsNew index records
      → IsIndex (index_records index records)
        × (length (index_records index records) + total_left (index_records index records)
            ≤ length records + total records + (length index + total_left index))
        × ((tp : Tp) → left (index_records index records) tp ≡ left index tp ++ messages tp records)
  unfolding index_records messages total
  index_records_lem index [] h d k = (h, omega arith, λ tp. sym (append-nil (left index tp)))
  index_records_lem index ((q, ms) ∷ records) h d k =
      let p = put_lem index q ms h k.0 in
      let rest =
        index_records_lem (with_buffer index q ms) records p.0 d.1
          (still-IsNew index q ms records h k.0 d.0 k.1) in
      (
        rest.0,
        omega (arith, p.1, rest.1),
        λ tp.
            rest.2 tp
            ∙ ap (λ xs. xs ++ messages tp records) (left-put index q ms h k.0 tp)
            ∙ append_assoc (left index tp) (only (q == tp) ms) (messages tp records),
      )

  all-IsNew : (records : List (Tp × List M)) → IsNew [] records
  unfolding get
  all-IsNew [] = tt
  all-IsNew (r ∷ records) = (refl, all-IsNew records)

  -- With as many rounds as there are records and partitions, the iteration over fetched records
  -- ends, and for every partition it has given exactly the partition's records, in their order;
  -- this needs that no partition is fetched twice, as the keys of a dict are not.
  pub iterate_lem :
      (fuel : ℕ) (records : List (Tp × List M))
      → HasDistinctKeys records
      → length records + total records ≤ fuel
      → (items : List (Tp × M)) × (iterate fuel records ≡ some items)
        × ((tp : Tp) → delivered tp items ≡ messages tp records)
  unfolding iterate map_from_records messages get total_left
  iterate_lem fuel records d enough =
      let (indexed, size, same) = index_records_lem [] records tt d (all-IsNew records) in
      let (items, run, order) =
        records_iterator_lem fuel (index_records [] records) indexed
          (omega (arith, size, enough)) in
      (items, run, λ tp. order tp ∙ same tp)
