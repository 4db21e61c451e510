-- ===== src/Rocks/Collected.antt =====
-- What a batch of the changelog comes to, by partition: its operations and its highest offset.
use faust.Common.{
  ℕ, ◌≡◌, ◌≢◌, refl, ap, ◌∙◌, false, ◌&&◌, List, [], ◌∷◌, ◌++◌, Option, none, some, arith,
  if◌then◌else◌, Eq, ◌==◌, nat_eq, nat_beq, nat_beq_iff, string_eq, String, All, Bool-cases, inl,
  inr,
}
use faust.Common.Dict.{Dict, get, put, get-put, HasDistinctKeys, put-HasDistinctKeys}
use text.Mathlib.TextEquality.{eq_iff}
use faust.Types.{Tp, tp_eq, tp_beq_iff}
use faust.Rocks.{written}
use faust.Rocks.Batches.{Event, later_offset, tp_offsets, or_empty, batches}

module _ {B : Type 0} where
  -- The highest offset of the partition in the batch, and of the one before
  unfoldable pub newest : Option ℕ → List (Event B) → Tp → Option ℕ
  newest o [] tp = o
  newest o (event ∷ batch) tp =
      newest (if event.tp == tp then some (later_offset event.offset o) else o) batch tp

  pub get-tp_offsets :
      (offsets : Dict Tp ℕ) (batch : List (Event B)) (tp : Tp)
      → get (tp_offsets offsets batch) tp ≡ newest (get offsets tp) batch tp
  unfolding tp_offsets newest
  get-tp_offsets offsets [] tp = refl
  get-tp_offsets offsets (event ∷ batch) tp =
      let o = later_offset event.offset (get offsets event.tp) in
      let same : event.tp ≡ tp → get offsets event.tp ≡ get offsets tp = λ q. ap (get offsets) q in
      get-tp_offsets (put offsets event.tp o) batch tp
      ∙ ap (λ x. newest x batch tp)
          (get-put offsets event.tp tp o ∙ ground (arith, tp_beq_iff event.tp tp, same))

module _ {B : Type 0} ⦃bytes : Eq B⦄ where
  -- The value of the last change of the key in the partition, or the old one
  unfoldable pub last_value : Option B → List (Event B) → ℕ → B → Option B
  last_value old [] p k = old
  last_value old (event ∷ batch) p k =
      last_value (if event.tp.partition == p && event.key == k then event.value else old) batch p k

  written-snoc :
      (old : Option B) (operations : List (B × Option B)) (j : B) (v : Option B) (k : B)
      → written old (operations ++ (j, v) ∷ []) k ≡ (if j == k then v else written old operations k)
  unfolding written
  written-snoc old [] j v k = refl
  written-snoc old ((i, w) ∷ operations) j v k =
      written-snoc (if i == k then w else old) operations j v k

  -- What a key has after the operations of its partition
  abbrev pub written_in : Option B → Dict ℕ (List (B × Option B)) → ℕ → B → Option B
  written_in old writes p k = written old (or_empty (get writes p)) k

  pub written-batches :
      (old : Option B) (writes : Dict ℕ (List (B × Option B))) (batch : List (Event B)) (p : ℕ)
      (k : B)
      → written_in old (batches writes batch) p k ≡ last_value (written_in old writes p k) batch p k
  unfolding batches last_value
  written-batches old writes [] p k = refl
  written-batches old writes (event ∷ batch) p k =
      let q = event.tp.partition in
      let operations = or_empty (get writes q) ++ (event.key, event.value) ∷ [] in
      written-batches old (put writes q operations) batch p k
      ∙ ap (λ o. last_value o batch p k)
          (elim (Bool-cases (q == p)) [
            | inl y ↦
                let same : q ≡ p = (nat_beq_iff q p).0 y in
                rw (get-put writes q p operations, y)
                  (written-snoc old (or_empty (get writes q)) event.key event.value k
                    ∙ ap (λ r. if event.key == k then event.value else written_in old writes r k)
                        same)
            | inr n ↦ rw (get-put writes q p operations, n) refl
          ])

  pub batches-HasDistinctKeys :
      (writes : Dict ℕ (List (B × Option B))) (batch : List (Event B))
      → HasDistinctKeys writes
      → HasDistinctKeys (batches writes batch)
  unfolding batches
  batches-HasDistinctKeys writes [] h = h
  batches-HasDistinctKeys writes (event ∷ batch) h =
      let q = event.tp.partition in
      let operations = or_empty (get writes q) ++ (event.key, event.value) ∷ [] in
      batches-HasDistinctKeys (put writes q operations) batch
        (put-HasDistinctKeys writes q operations h)

pub tp_offsets-HasDistinctKeys :
    {B : Type 0} (offsets : Dict Tp ℕ) (batch : List (Event B))
    → HasDistinctKeys offsets
    → HasDistinctKeys (tp_offsets offsets batch)
unfolding tp_offsets
tp_offsets-HasDistinctKeys offsets [] h = h
tp_offsets-HasDistinctKeys offsets (event ∷ batch) h =
    let o = later_offset event.offset (get offsets event.tp) in
    tp_offsets-HasDistinctKeys (put offsets event.tp o) batch
      (put-HasDistinctKeys offsets event.tp o h)

-- All offsets are of the topic.
abbrev pub OfTopic : String → Dict Tp ℕ → Type 0
OfTopic topic [] = Unit
OfTopic topic ((tp, offset) ∷ offsets) = (tp.topic ≡ topic) × OfTopic topic offsets

put-OfTopic :
    (topic : String) (offsets : Dict Tp ℕ) (tp : Tp) (offset : ℕ)
    → tp.topic ≡ topic
    → OfTopic topic offsets
    → OfTopic topic (put offsets tp offset)
unfolding put
put-OfTopic topic [] tp offset t h = (t, tt)
put-OfTopic topic ((q, o) ∷ offsets) tp offset t h = elim (Bool-cases (q == tp)) [
  | inl y ↦ rw (y, put) h
  | inr n ↦ rw (n, put) (h.0, put-OfTopic topic offsets tp offset t h.1)
]

pub tp_offsets-OfTopic :
    {B : Type 0} (topic : String) (offsets : Dict Tp ℕ) (batch : List (Event B))
    → All (λ event. event.tp.topic ≡ topic) batch
    → OfTopic topic offsets
    → OfTopic topic (tp_offsets offsets batch)
unfolding tp_offsets
tp_offsets-OfTopic topic offsets [] a h = h
tp_offsets-OfTopic topic offsets (event ∷ batch) a h =
    let o = later_offset event.offset (get offsets event.tp) in
    tp_offsets-OfTopic topic (put offsets event.tp o) batch a.1
      (put-OfTopic topic offsets event.tp o a.0 h)

module _ {B : Type 0} ⦃bytes : Eq B⦄ where
  newest-some : (o : ℕ) (batch : List (Event B)) (tp : Tp) → newest (some o) batch tp ≢ none
  unfolding newest
  newest-some o [] tp h = absurd (cc)
  newest-some o (event ∷ batch) tp h = elim (Bool-cases (event.tp == tp)) [
    | inl y ↦ newest-some (later_offset event.offset (some o)) batch tp (ground (arith, h, y))
    | inr n ↦ newest-some o batch tp (ground (arith, h, n))
  ]

  -- Where a partition has no event in the batch, its keys stay as they are.
  pub last_value-none :
      (topic : String) (old : Option B) (batch : List (Event B)) (p : ℕ) (k : B)
      → All (λ event. event.tp.topic ≡ topic) batch
      → newest none batch (record { topic = topic; partition = p }) ≡ none
      → last_value old batch p k ≡ old
  unfolding newest last_value
  last_value-none topic old [] p k a h = refl
  last_value-none topic old (event ∷ batch) p k a h =
      let there : Tp = record { topic = topic; partition = p } in
      elim (Bool-cases (event.tp == there)) [
        | inl y ↦ absurd (newest-some event.offset batch there (ground (arith, h, y)))
        | inr n ↦
            let apart : nat_beq event.tp.partition p ≡ false =
              ground (arith, n, a.0, eq_iff event.tp.topic topic) in
            rw apart (last_value-none topic old batch p k a.1 (ground (arith, h, n)))
      ]
