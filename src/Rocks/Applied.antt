-- ===== src/Rocks/Applied.antt =====
-- What the databases hold after a batch of the changelog.
use faust.Common.{
  ℕ, ◌≡◌, ◌≢◌, refl, sym, ap, ◌∙◌, Bool, true, false, ◌&&◌, List, [], ◌∷◌, ◌++◌, Option, none, some,
  arith, if◌then◌else◌, Eq, ◌==◌, nat_eq, nat_beq, nat_beq_iff, string_eq, String, contains, Result,
  ok, ◌>>=◌, All, Bool-cases, inl, inr,
}
use faust.Common.Dict.{Dict, get, HasDistinctKeys}
use text.Mathlib.TextEquality.{eq_iff}
use faust.Types.{Tp, tp_eq, tp_beq_iff}
use faust.Rocks.{Database, Store, written, with_file, db_for_partition}
use faust.Rocks.Batches.{
  Event, tp_offsets, batches, write_batches, set_persisted_offset, set_persisted_offsets,
  apply_changelog_batch, int_of, persisted_offset,
}
use faust.Rocks.Access.{get-put_file}
use faust.Rocks.Collected.{
  newest, get-tp_offsets, last_value, written_in, written-batches, batches-HasDistinctKeys, OfTopic,
  tp_offsets-HasDistinctKeys, tp_offsets-OfTopic, last_value-none,
}

module _ {D I : Type 0} where
  pub db_for_partition_lem :
      (can_open : ℕ → Bool) (s : Store D I) (p : ℕ)
      → can_open p ≡ true
      → (s' : Store D I) × (db_for_partition can_open s p ≡ ok s') × (s'.files ≡ s.files)
  unfolding db_for_partition
  db_for_partition_lem can_open s p h = elim (Bool-cases (contains s.dbs p)) [
    | inl y ↦ (s, rw y refl, refl)
    | inr n ↦ (record s { dbs = s.dbs ++ p ∷ [] }, rw (n, h) refl, refl)
  ]

module _ {D B : Type 0} ⦃bytes : Eq B⦄ (db : Database D B bytes) where
  written_first :
      (files : ℕ → D) (q : ℕ) (operations : List (B × Option B))
      (writes : Dict ℕ (List (B × Option B))) (p : ℕ) (k : B)
      → get writes q ≡ none
      → written_in (db.get_value (with_file files q (db.write (files q) operations) p) k) writes p k
        ≡ written_in (db.get_value (files p) k) ((q, operations) ∷ writes) p k
  unfolding get written
  written_first files q operations writes p k h = elim (Bool-cases (q == p)) [
    | inl y ↦
        let same : q ≡ p = (nat_beq_iff q p).0 y in
        rw (y, ap (get writes) (sym same) ∙ h)
          (db.get-write (files q) operations k
            ∙ ap (λ r. written (db.get_value (files r) k) operations k) same)
    | inr n ↦ rw n refl
  ]

abbrev encoded_or : {B : Type 0} → (ℕ → B) → Option B → Option ℕ → Option B
encoded_or encode old none = old
encoded_or encode old (some offset) = some (encode offset)

encoded_first :
    {B : Type 0} ⦃bytes : Eq B⦄ (encode : ℕ → B) (j : B) (old : Option B) (topic : String) (tp : Tp)
    (offset : ℕ) (offsets : Dict Tp ℕ) (p : ℕ)
    → tp.topic ≡ topic
    → get offsets tp ≡ none
    → encoded_or encode
        (if tp.partition == p && j == j then some (encode offset) else old)
        (get offsets (record { topic = topic; partition = p }))
      ≡ encoded_or encode old
          (get ((tp, offset) ∷ offsets) (record { topic = topic; partition = p }))
unfolding get
encoded_first ⦃bytes⦄ encode j old topic tp offset offsets p t h =
    let there : Tp = record { topic = topic; partition = p } in
    elim (Bool-cases (tp == there)) [
      | inl y ↦
          let same : tp ≡ there = (tp_beq_iff tp there).0 y in
          let absent : get offsets there ≡ none = ap (get offsets) (sym same) ∙ h in
          rw (y, absent) (ground (arith, y, bytes.beq_iff j j))
      | inr n ↦
          let apart : nat_beq tp.partition p ≡ false =
            ground (arith, n, t, eq_iff tp.topic topic) in
          rw (n, apart) refl
    ]

module _ {D I B : Type 0} ⦃bytes : Eq B⦄ (db : Database D B bytes) (offset_key : B) (encode : ℕ → B)
    (can_open : ℕ → Bool) where
  -- What a partition's database has for a key
  abbrev pub value_in : Store D I → ℕ → B → Option B
  value_in s p k = db.get_value (s.files p) k

  write_batches_lem :
      (s : Store D I) (writes : Dict ℕ (List (B × Option B)))
      → ((p : ℕ) → can_open p ≡ true)
      → HasDistinctKeys writes
      → (s' : Store D I) × (write_batches db offset_key encode can_open s writes ≡ ok s')
        × ((p : ℕ) (k : B) → value_in s' p k ≡ written_in (value_in s p k) writes p k)
  unfolding write_batches get written
  write_batches_lem s [] c h = (s, refl, λ p k. refl)
  write_batches_lem s ((q, operations) ∷ writes) c h =
      let (t, opened, same) = db_for_partition_lem can_open s q (c q) in
      let d = db.write (t.files q) operations in
      let t' : Store D I = record t { files = with_file t.files q d } in
      let (s', done, after) = write_batches_lem t' writes c h.1 in
      (
        s',
        rw opened done,
        λ p k. after p k ∙ rw same (written_first db s.files q operations writes p k h.0),
      )

  set_persisted_offsets_lem :
      (topic : String) (s : Store D I) (offsets : Dict Tp ℕ)
      → ((p : ℕ) → can_open p ≡ true)
      → HasDistinctKeys offsets
      → OfTopic topic offsets
      → (s' : Store D I) × (set_persisted_offsets db offset_key encode can_open s offsets ≡ ok s')
        × ((p : ℕ) (k : B) → offset_key ≢ k → value_in s' p k ≡ value_in s p k)
        × ((p : ℕ)
            → value_in s' p offset_key
              ≡ encoded_or encode
                  (value_in s p offset_key)
                  (get offsets (record { topic = topic; partition = p })))
  unfolding set_persisted_offsets set_persisted_offset get
  set_persisted_offsets_lem topic s [] c h t = (s, refl, (λ p k n. refl), λ p. refl)
  set_persisted_offsets_lem topic s ((tp, offset) ∷ offsets) c h t =
      let q = tp.partition in
      let (u, opened, same) = db_for_partition_lem can_open s q (c q) in
      let d = db.put_value (u.files q) offset_key (encode offset) in
      let u' : Store D I = record u { files = with_file u.files q d } in
      let (s', done, others, own) = set_persisted_offsets_lem topic u' offsets c h.1 t.1 in
      (
        s',
        rw opened done,
        (λ p k n.
            others p k n
            ∙ rw same (
                get-put_file db s.files q offset_key (encode offset) p k
                ∙ ground (arith, bytes.beq_iff offset_key k, n))),
        λ p.
            own p
            ∙ rw (same, get-put_file db s.files q offset_key (encode offset) p offset_key)
                (encoded_first encode offset_key (value_in s p offset_key) topic tp offset offsets p
                  t.0 h.0),
      )

abbrev pub or_else : Option ℕ → Option ℕ → Option ℕ
or_else old none = old
or_else old (some offset) = some offset

int_of-encoded_or :
    {B : Type 0} (encode : ℕ → B) (decode : B → ℕ) (old value : Option B) (o : Option ℕ)
    → ((offset : ℕ) → decode (encode offset) ≡ offset)
    → (o ≡ none → value ≡ old)
    → int_of decode (encoded_or encode value o) ≡ or_else (int_of decode old) o
int_of-encoded_or encode decode old value none r same = ap (int_of decode) (same refl)
int_of-encoded_or encode decode old value (some offset) r same = ap some (r offset)

-- The offset that was read, less what reading it opened
abbrev pub offset_of : {S : Type 0} → Result (S × Option ℕ) → Result (Option ℕ)
offset_of r = r >>= λ found. ok found.1

module _ {D I B : Type 0} ⦃bytes : Eq B⦄ (db : Database D B bytes) (offset_key : B) (encode : ℕ → B)
    (decode : B → ℕ) (can_open : ℕ → Bool) where
  persisted_offset_lem :
      (s : Store D I) (tp : Tp)
      → can_open tp.partition ≡ true
      → offset_of (persisted_offset db offset_key encode decode can_open s tp)
        ≡ ok (int_of decode (db.get_value (s.files tp.partition) offset_key))
  unfolding persisted_offset
  persisted_offset_lem s tp c =
      let (t, opened, same) = db_for_partition_lem can_open s tp.partition c in
      rw (opened, same) refl

  -- Where every database can be opened, the parser of offsets undoes what wrote them, and all
  -- events are of one topic: applying a batch returns. A key other than the offset's then has in a
  -- partition's database the value of its last change there, none after a deletion, or what it had
  -- where the batch does not change it; and the persisted offset of a partition is the highest
  -- offset of its events in the batch, or the one it had where there are none.
  pub apply_changelog_batch-last_value :
      (topic : String) (s : Store D I) (batch : List (Event B))
      → ((p : ℕ) → can_open p ≡ true)
      → ((offset : ℕ) → decode (encode offset) ≡ offset)
      → All (λ event. event.tp.topic ≡ topic) batch
      → (s' : Store D I) × (apply_changelog_batch db offset_key encode can_open s batch ≡ ok s')
        × ((p : ℕ) (k : B)
            → offset_key ≢ k
            → db.get_value (s'.files p) k ≡ last_value (db.get_value (s.files p) k) batch p k)
        × ((p : ℕ)
            → let tp : Tp = record { topic = topic; partition = p } in
              offset_of (persisted_offset db offset_key encode decode can_open s' tp) ≡ (
                offset_of (persisted_offset db offset_key encode decode can_open s tp) >>= λ old.
                ok (or_else old (newest none batch tp))))
  unfolding apply_changelog_batch get written
  apply_changelog_batch-last_value topic s batch c r a =
      let (t, wrote, values) =
        write_batches_lem db offset_key encode can_open s (batches [] batch) c
          (batches-HasDistinctKeys [] batch tt) in
      let (s', done, others, own) =
        set_persisted_offsets_lem db offset_key encode can_open topic t (tp_offsets [] batch) c
          (tp_offsets-HasDistinctKeys [] batch tt) (tp_offsets-OfTopic topic [] batch a tt) in
      let changed =
        λ (p : ℕ) (k : B). values p k ∙ written-batches (db.get_value (s.files p) k) [] batch p k in
      (
        s',
        rw wrote done,
        (λ p k n. others p k n ∙ changed p k),
        λ p.
            let tp : Tp = record { topic = topic; partition = p } in
            let old = db.get_value (s.files p) offset_key in
            rw (persisted_offset_lem s' tp (c p), persisted_offset_lem s tp (c p))
              (ap ok (
                ap (int_of decode)
                  (own p ∙ rw (changed p offset_key, get-tp_offsets [] batch tp) refl)
                ∙ int_of-encoded_or encode decode old (last_value old batch p offset_key)
                    (newest none batch tp) r (last_value-none topic old batch p offset_key a))),
      )
