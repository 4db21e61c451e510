-- ===== src/Scheduler/Buffers.antt =====
-- What is left in a topic's buffers.
use mathlib.Core.List.{append-nil, append_assoc}
use faust.Common.{
  ℕ, ◌+◌, ◌≡◌, refl, sym, ap, ◌∙◌, Bool, true, false, List, [], ◌∷◌, ◌++◌, none, arith, String,
  string_eq, ◌==◌, length, Bool-cases, inl, inr,
}
use faust.Common.Dict.{get}
use faust.Types.{Tp, tp_eq, tp_beq_iff}
use faust.Scheduler.{TopicBuffer, add}

abbrev pub only {ℓ} : {A : Type ℓ} → Bool → List A → List A
only true xs = xs
only false xs = []

module _ {M : Type 0} where
  -- The messages of a partition, in order
  unfoldable pub messages : Tp → List (Tp × List M) → List M
  messages tp [] = []
  messages tp ((q, ms) ∷ buffers) = only (q == tp) ms ++ messages tp buffers

  unfoldable pub total : List (Tp × List M) → ℕ
  total [] = 0
  total ((q, ms) ∷ buffers) = length ms + total buffers

  abbrev pub contents : TopicBuffer M → List (Tp × List M)
  contents b = b.ahead ++ b.visited

  -- The buffers of a topic: its own partitions, each once
  abbrev pub IsOf : String → List (Tp × List M) → Type 0
  IsOf topic [] = Unit
  IsOf topic ((q, ms) ∷ buffers) = (q.topic ≡ topic) × (get buffers q ≡ none) × IsOf topic buffers

  get-insert :
      (xs ys : List (Tp × List M)) (k j : Tp) (v : List M)
      → get (xs ++ (k, v) ∷ ys) j ≡ none
      → get (xs ++ ys) j ≡ none
  unfolding get
  get-insert [] ys k j v h = ground (arith, h)
  get-insert ((q, w) ∷ xs) ys k j v h = ground (arith, get-insert xs ys k j v, h)

  get_insert :
      (xs ys : List (Tp × List M)) (k j : Tp) (v : List M)
      → (k == j) ≡ false
      → get (xs ++ ys) j ≡ none
      → get (xs ++ (k, v) ∷ ys) j ≡ none
  unfolding get
  get_insert [] ys k j v n h = ground (arith, n, h)
  get_insert ((q, w) ∷ xs) ys k j v n h = ground (arith, get_insert xs ys k j v n, h)

  pub insert-IsOf :
      (topic : String) (xs ys : List (Tp × List M)) (k : Tp) (v : List M)
      → k.topic ≡ topic
      → get (xs ++ ys) k ≡ none
      → IsOf topic (xs ++ ys)
      → IsOf topic (xs ++ (k, v) ∷ ys)
  unfolding get
  insert-IsOf topic [] ys k v t n h = (t, n, h)
  insert-IsOf topic ((q, w) ∷ xs) ys k v t n h = (
    h.0,
    get_insert xs ys k q v (ground (arith, n, tp_beq_iff q k, tp_beq_iff k q)) h.1,
    insert-IsOf topic xs ys k v t (ground (arith, n)) h.2,
  )

  pub messages_absent : (tp : Tp) (xs : List (Tp × List M)) → get xs tp ≡ none → messages tp xs ≡ []
  unfolding messages get
  messages_absent tp [] h = refl
  messages_absent tp ((q, ms) ∷ xs) h = ground (arith, messages_absent tp xs, h)

  messages-insert_other :
      (tp : Tp) (xs ys : List (Tp × List M)) (k : Tp) (v : List M)
      → (k == tp) ≡ false
      → messages tp (xs ++ (k, v) ∷ ys) ≡ messages tp (xs ++ ys)
  unfolding messages
  messages-insert_other tp [] ys k v n = rw n refl
  messages-insert_other tp ((q, w) ∷ xs) ys k v n =
      ap (λ ms. only (q == tp) w ++ ms) (messages-insert_other tp xs ys k v n)

  messages-insert_self :
      (xs ys : List (Tp × List M)) (k : Tp) (v : List M)
      → get (xs ++ ys) k ≡ none
      → messages k (xs ++ (k, v) ∷ ys) ≡ v
  unfolding messages get
  messages-insert_self [] ys k v h =
      ground (arith, messages_absent k ys h, append-nil v, tp_beq_iff k k)
  messages-insert_self ((q, w) ∷ xs) ys k v h = ground (arith, messages-insert_self xs ys k v, h)

  -- A buffer that is put anywhere among the others, which have none for its partition
  pub messages-insert :
      (tp : Tp) (xs ys : List (Tp × List M)) (k : Tp) (v : List M)
      → get (xs ++ ys) k ≡ none
      → messages tp (xs ++ (k, v) ∷ ys) ≡ only (k == tp) v ++ messages tp (xs ++ ys)
  messages-insert tp xs ys k v h = elim (Bool-cases (k == tp)) [
    | inl y ↦
        let same : k ≡ tp = (tp_beq_iff k tp).0 y in
        rw (y, sym same)
          (messages-insert_self xs ys k v h
            ∙ sym (ap (λ ms. v ++ ms) (messages_absent k (xs ++ ys) h) ∙ append-nil v))
    | inr n ↦ rw n (messages-insert_other tp xs ys k v n)
  ]

  pub total-insert :
      (xs ys : List (Tp × List M)) (k : Tp) (v : List M)
      → total (xs ++ (k, v) ∷ ys) ≡ length v + total (xs ++ ys)
  unfolding total
  total-insert [] ys k v = refl
  total-insert ((q, w) ∷ xs) ys k v = omega (arith, total-insert xs ys k v)

  -- A topic's buffer with one more partition
  pub add_lem :
      (topic : String) (b : TopicBuffer M) (k : Tp) (v : List M)
      → k.topic ≡ topic
      → get (contents b) k ≡ none
      → IsOf topic (contents b)
      → IsOf topic (contents (add b k v))
        × (total (contents (add b k v)) ≡ length v + total (contents b))
        × ((tp : Tp)
            → messages tp (contents (add b k v)) ≡ only (k == tp) v ++ messages tp (contents b))
        × ((j : Tp)
            → (k == j) ≡ false
            → get (contents b) j ≡ none
            → get (contents (add b k v)) j ≡ none)
  unfolding add
  add_lem topic b k v t absent h =
      let placed : (b.ahead ++ (k, v) ∷ []) ++ b.visited ≡ b.ahead ++ (k, v) ∷ b.visited =
        append_assoc b.ahead ((k, v) ∷ []) b.visited in
      rw placed (
        insert-IsOf topic b.ahead b.visited k v t absent h,
        total-insert b.ahead b.visited k v,
        λ tp. messages-insert tp b.ahead b.visited k v absent,
        λ j n m. get_insert b.ahead b.visited k j v n m,
      )
