-- ===== src/Barrier/Join/Places.antt =====
-- What `values[posindex[correlation_id]] = value` does for the replies of a join.
use faust.Common.{
  ℕ, zero, suc, ◌+◌, ◌<◌, ◌≤◌, ◌≡◌, ◌≢◌, refl, sym, ap, ◌∙◌, true, false, List, [], ◌∷◌, Option,
  none, some, arith, String, string_eq, ◌==◌, contains, length, get_elem?, set, replicate, All, ok,
  if◌then◌else◌, Bool-cases, inl, inr,
}
use mathlib.Core.Option.{some-injective}
use faust.Common.Dict.{Dict, get, put, get-put, HasDistinctKeys}
use faust.Common.Members.{IsSetList}
use faust.Barrier.Join.{posindex_from, place_each}

module _ {A : Type 0} where
  get_elem?-set :
      (xs : List A) (i : ℕ) (v o : A) → get_elem? xs i ≡ some o → get_elem? (set xs i v) i ≡ some v
  get_elem?-set [] i v o h = absurd (cc)
  get_elem?-set (x ∷ xs) zero v o h = refl
  get_elem?-set (x ∷ xs) (suc i) v o h = get_elem?-set xs i v o h

  get_elem?-set_other :
      (xs : List A) (i j : ℕ) (v : A) → i ≢ j → get_elem? (set xs i v) j ≡ get_elem? xs j
  get_elem?-set_other [] i j v n = refl
  get_elem?-set_other (x ∷ xs) zero zero v n = absurd (n refl)
  get_elem?-set_other (x ∷ xs) zero (suc j) v n = refl
  get_elem?-set_other (x ∷ xs) (suc i) zero v n = refl
  get_elem?-set_other (x ∷ xs) (suc i) (suc j) v n =
      get_elem?-set_other xs i j v (λ p. n (ap suc p))

  pub get_elem?-replicate : (n i : ℕ) (a : A) → i < n → get_elem? (replicate n a) i ≡ some a
  get_elem?-replicate zero i a h = absurd (omega (arith, h))
  get_elem?-replicate (suc n) zero a h = refl
  get_elem?-replicate (suc n) (suc i) a h = get_elem?-replicate n i a (omega (arith, h))

  pub get_elem?-lt : (xs : List A) (i : ℕ) (a : A) → get_elem? xs i ≡ some a → i < length xs
  get_elem?-lt [] i a h = absurd (cc)
  get_elem?-lt (x ∷ xs) zero a h = omega arith
  get_elem?-lt (x ∷ xs) (suc i) a h = omega (arith, get_elem?-lt xs i a h)

posindex_from_old :
    (index : Dict String ℕ) (s : ℕ) (ids : List String) (id : String)
    → contains ids id ≡ false
    → get (posindex_from index s ids) id ≡ get index id
unfolding posindex_from
posindex_from_old index s [] id h = refl
posindex_from_old index s (x ∷ ids) id h =
    posindex_from_old (put index x s) (suc s) ids id (ground (arith, h))
    ∙ ground (arith, get-put index x id s, h)

-- The index of an id is the place of its item.
posindex_from_lem :
    (index : Dict String ℕ) (s : ℕ) (ids : List String) (id : String) (i : ℕ)
    → IsSetList ids
    → get_elem? ids i ≡ some id
    → get (posindex_from index s ids) id ≡ some (s + i)
unfolding posindex_from
posindex_from_lem index s [] id i d h = absurd (cc)
posindex_from_lem index s (x ∷ ids) id zero d h =
    let same : x ≡ id = some-injective x id h in
    posindex_from_old (put index x s) (suc s) ids id (ap (contains ids) (sym same) ∙ d.0)
    ∙ ground (arith, get-put index x id s, same, string_eq.beq_iff x id)
posindex_from_lem index s (x ∷ ids) id (suc i) d h =
    posindex_from_lem (put index x s) (suc s) ids id i d.1 h ∙ ap (λ (k : ℕ). some k) (omega arith)

contains-place :
    (ids : List String) (id : String)
    → contains ids id ≡ true
    → (i : ℕ) × (get_elem? ids i ≡ some id)
contains-place [] id h = absurd (cc)
contains-place (x ∷ ids) id h = elim (Bool-cases (x == id)) [
  | inl y ↦ (0, ap some ((string_eq.beq_iff x id).0 y))
  | inr n ↦ let r = contains-place ids id (ground (arith, h, n)) in (suc r.0, r.1)
]

abbrev pub value_or : {V : Type 0} → Option V → Option V → Option V
value_or none old = old
value_or (some v) old = some v

pub value_or-none : {V : Type 0} (o : Option V) → value_or o none ≡ o
value_or-none none = refl
value_or-none (some v) = refl

abbrev pub index : List String → Dict String ℕ
index ids = posindex_from [] 0 ids

index_lem :
    (ids : List String) (id : String) (i : ℕ)
    → IsSetList ids
    → get_elem? ids i ≡ some id
    → get (index ids) id ≡ some i
index_lem ids id i distinct h =
    posindex_from_lem [] 0 ids id i distinct h ∙ ap (λ (k : ℕ). some k) (omega arith)

module _ {V : Type 0} (ids : List String) (distinct : IsSetList ids) where
  pub place_each_lem :
      (values : List (Option V)) (replies : List (String × V))
      → HasDistinctKeys replies
      → All (λ r. contains ids r.0 ≡ true) replies
      → (after : List (Option V)) × (place_each (index ids) values replies ≡ ok after)
        × ((i : ℕ) (id : String) (old : Option V)
            → get_elem? ids i ≡ some id
            → get_elem? values i ≡ some old
            → get_elem? after i ≡ some (value_or (get replies id) old))
  unfolding place_each get
  place_each_lem values [] d known = (values, refl, λ i id old h k. k)
  place_each_lem values ((id', v) ∷ replies) d known =
      let place = contains-place ids id' known.0 in
      let found = index_lem ids id' place.0 distinct place.1 in
      let rest = place_each_lem (set values place.0 (some v)) replies d.1 known.1 in
      (
        rest.0,
        rw (found, place_each) rest.1,
        λ i id old h k. elim (Bool-cases (id' == id)) [
          | inl y ↦
              let same : id' ≡ id = (string_eq.beq_iff id' id).0 y in
              let at_ : place.0 ≡ i =
                some-injective place.0 i
                  (sym found ∙ ap (get (index ids)) same ∙ index_lem ids id i distinct h) in
              let gone : get replies id ≡ none = ap (get replies) (sym same) ∙ d.0 in
              let here : get_elem? (set values place.0 (some v)) i ≡ some (some v) =
                ap (λ p. get_elem? (set values p (some v)) i) at_
                ∙ get_elem?-set values i (some v) old k in
              rest.2 i id (some v) h here ∙ rw (y, gone) refl
          | inr n ↦
              let away : place.0 ≢ i = λ p.
                let same : id' ≡ id =
                  some-injective id' id (sym place.1 ∙ ap (get_elem? ids) p ∙ h) in
                absurd (ground (arith, n, (string_eq.beq_iff id' id).1 same)) in
              rw n (rest.2 i id old h (get_elem?-set_other values place.0 i (some v) away ∙ k))
        ],
      )

pub contains-at :
    (ids : List String) (i : ℕ) (id : String) → get_elem? ids i ≡ some id → contains ids id ≡ true
contains-at [] i id h = absurd (cc)
contains-at (x ∷ ids) zero id h = ground (arith, (string_eq.beq_iff x id).1 (some-injective x id h))
contains-at (x ∷ ids) (suc i) id h = ground (arith, contains-at ids i id h)

-- Without the first id that is the same
abbrev without : List String → String → List String
without [] k = []
without (x ∷ ids) k = let rest = without ids k in if x == k then ids else x ∷ rest

length-without :
    (ids : List String) (k : String)
    → contains ids k ≡ true
    → suc (length (without ids k)) ≡ length ids
length-without [] k h = absurd (cc)
length-without (x ∷ ids) k h = elim (Bool-cases (x == k)) [
  | inl y ↦ rw y refl
  | inr n ↦ rw n (ap suc (length-without ids k (ground (arith, h, n))))
]

contains-without :
    (ids : List String) (k id : String)
    → (k == id) ≡ false
    → contains ids id ≡ true
    → contains (without ids k) id ≡ true
contains-without [] k id other h = absurd (cc)
contains-without (x ∷ ids) k id other h = elim (Bool-cases (x == k)) [
  | inl y ↦
      let same : x ≡ k = (string_eq.beq_iff x k).0 y in
      let away : (x == id) ≡ false = ap (λ z. z == id) same ∙ other in
      rw y (ground (arith, h, away))
  | inr n ↦ rw n (ground (arith, h, contains-without ids k id other))
]

module _ {V : Type 0} where
  All-without :
      (ids : List String) (k : String) (replies : List (String × V))
      → get replies k ≡ none
      → All (λ r. contains ids r.0 ≡ true) replies
      → All (λ r. contains (without ids k) r.0 ≡ true) replies
  unfolding get
  All-without ids k [] gone h = tt
  All-without ids k ((j, v) ∷ replies) gone h = elim (Bool-cases (j == k)) [
    | inl y ↦ absurd (ground (arith, gone, y))
    | inr n ↦
        let other : (k == j) ≡ false = elim (Bool-cases (k == j)) [
          | inl e ↦
              absurd
                (ground (arith, n, (string_eq.beq_iff j k).1 (sym ((string_eq.beq_iff k j).0 e))))
          | inr e ↦ e
        ] in
        let later : get replies k ≡ none = sym (rw n refl) ∙ gone in
        (contains-without ids k j other h.0, All-without ids k replies later h.1)
  ]

  -- Where there are no fewer replies than items, each item has one.
  pub get-some_of_enough :
      (ids : List String) (replies : List (String × V)) (id : String)
      → HasDistinctKeys replies
      → All (λ r. contains ids r.0 ≡ true) replies
      → length ids ≤ length replies
      → contains ids id ≡ true
      → (v : V) × (get replies id ≡ some v)
  unfolding get
  get-some_of_enough [] [] id d known enough h = absurd (cc)
  get-some_of_enough (x ∷ ids) [] id d known enough h = absurd (omega (arith, enough))
  get-some_of_enough ids ((k, v) ∷ replies) id d known enough h = elim (Bool-cases (k == id)) [
    | inl y ↦ (v, rw y refl)
    | inr n ↦
        let shorter = length-without ids k known.0 in
        let rest =
          get-some_of_enough (without ids k) replies id d.1 (All-without ids k replies d.0 known.1)
            (omega (arith, enough, shorter)) (contains-without ids k id n h) in
        (rest.0, rw n rest.1)
  ]
