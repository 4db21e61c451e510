-- ===== src/Rocks/Access.antt =====
-- What is read from the databases after a key was set or deleted.
use faust.Common.{
  ℕ, ◌≡◌, ◌≢◌, refl, ap, ◌∙◌, Bool, true, not, ◌&&◌, [], ◌∷◌, ◌++◌, Option, none, some,
  if◌then◌else◌, Eq, ◌==◌, nat_eq, nat_beq_iff, contains, arith, Bool-cases, Option-cases, inl, inr,
  Result, ok, ◌>>=◌,
}
use faust.Common.Members.{contains-append}
use faust.Rocks.{
  Database, KeyIndex, Store, with_file, db_for_partition, set_key, search_dbs, dbs_for_key,
  after_look, get_bucket_for_key, get_from, TableFlags, plain_table, get_key,
}

-- The value that was read, less what reading it changed
abbrev pub value_of : {S V : Type 0} → Result (S × V) → Result V
value_of r = r >>= λ found. ok found.1

abbrev pub found_value : {B : Type 0} → Option (ℕ × B) → Option B
found_value none = none
found_value (some (p, v)) = some v

module _ {D I : Type 0} where
  pub opened_lem :
      (can_open : ℕ → Bool) (s : Store D I) (p : ℕ)
      → can_open p ≡ true
      → (s' : Store D I) × (db_for_partition can_open s p ≡ ok s')
        × (s'.files ≡ s.files)
        × (contains s'.dbs p ≡ true)
  unfolding db_for_partition
  opened_lem can_open s p h = elim (Bool-cases (contains s.dbs p)) [
    | inl y ↦ (s, rw y refl, refl, y)
    | inr n ↦ (
      record s { dbs = s.dbs ++ p ∷ [] },
      rw (n, h) refl,
      refl,
      ground (arith, contains-append s.dbs (p ∷ []) p),
    )
  ]

module _ {D B : Type 0} ⦃bytes : Eq B⦄ (db : Database D B bytes) where
  pub get-put_file :
      (files : ℕ → D) (q : ℕ) (j : B) (v : B) (p : ℕ) (k : B)
      → db.get_value (with_file files q (db.put_value (files q) j v) p) k
        ≡ (if q == p && j == k then some v else db.get_value (files p) k)
  get-put_file files q j v p k = elim (Bool-cases (q == p)) [
    | inl y ↦
        let same : q ≡ p = (nat_beq_iff q p).0 y in
        rw y (
          db.get-put_value (files q) j k v
          ∙ ap (λ r. if j == k then some v else db.get_value (files r) k) same)
    | inr n ↦ rw n refl
  ]

module _ {D I B : Type 0} ⦃bytes : Eq B⦄ (db : Database D B bytes) (ix : KeyIndex I B bytes)
    (can_open : ℕ → Bool) where
  pub get_key_lem :
      (s : Store D I) (p : ℕ) (k : B)
      → can_open p ≡ true
      → value_of (get_key db ix can_open plain_table (some p) s k) ≡ ok (db.get_value (s.files p) k)
  unfolding get_key get_from
  get_key_lem s p k h =
      let (t, opened, same, open_now) = opened_lem can_open s p h in rw (opened, same) refl

  search_found :
      (s : Store D I) (k v : B) (p : ℕ)
      → db.get_value (s.files p) k ≡ some v
      → search_dbs db ix s k (p ∷ []) ≡ some (p, v)
  unfolding search_dbs
  search_found s k v p h = rw (db.may_exist (s.files p) k v h, h) refl

  pub get_bucket_for_key-search :
      (s : Store D I) (k : B)
      → (get_bucket_for_key db ix s k).1
        ≡ found_value (search_dbs db ix (after_look db ix s k) k (dbs_for_key db ix s k))
  unfolding get_bucket_for_key
  get_bucket_for_key-search s k =
      elim (Option-cases (search_dbs db ix (after_look db ix s k) k (dbs_for_key db ix s k))) [
        | inl n ↦ rw (n, get_bucket_for_key) refl
        | inr (x, e) ↦ rw (e, get_bucket_for_key) refl
      ]

  pub dbs_for_key-indexed :
      (s : Store D I) (k : B) (p : ℕ)
      → ix.look s.key_index k ≡ some p
      → contains s.dbs p ≡ true
      → dbs_for_key db ix s k ≡ p ∷ []
  unfolding dbs_for_key
  dbs_for_key-indexed s k p look there = rw (look, there) refl

  -- Outside an event, a key that the index places in an open database that has it is found there.
  bucket_found :
      (s : Store D I) (k v : B) (p : ℕ)
      → ix.look s.key_index k ≡ some p
      → contains s.dbs p ≡ true
      → db.get_value (s.files p) k ≡ some v
      → (get_bucket_for_key db ix s k).1 ≡ some v
  bucket_found s k v p look there h =
      get_bucket_for_key-search s k
      ∙ rw (dbs_for_key-indexed s k p look there, search_found (after_look db ix s k) k v p h) refl

  -- A read during an event of a partition goes by the partition, or searches the databases.
  get_key-either :
      (table : TableFlags) (s : Store D I) (p : ℕ) (k : B) (o : Option B)
      → can_open p ≡ true
      → db.get_value (s.files p) k ≡ o
      → (get_bucket_for_key db ix s k).1 ≡ o
      → value_of (get_key db ix can_open table (some p) s k) ≡ ok o
  unfolding get_key get_from
  get_key-either table s p k o h by_partition by_search =
      elim (Bool-cases (not table.is_global && not table.use_partitioner)) [
        | inl y ↦ rw y (get_key_lem s p k h ∙ ap ok by_partition)
        | inr n ↦ rw n (ap ok by_search)
      ]

  get_key-outside :
      (table : TableFlags) (s : Store D I) (k : B) (o : Option B)
      → (get_bucket_for_key db ix s k).1 ≡ o
      → value_of (get_key db ix can_open table none s k) ≡ ok o
  unfolding get_key get_from
  get_key-outside table s k o found = ap ok found

  -- Setting a key during an event of a partition whose database can be opened returns. A read of
  -- the key then gives the new value, during an event of that partition and outside any event,
  -- whether or not the table is global or has a partitioner of its own. For a table that is
  -- neither, a read during an event of that partition gives for another key what it gave before.
  -- The databases of other partitions are as they were.
  pub set_key-get_key :
      (s : Store D I) (p : ℕ) (k v : B)
      → can_open p ≡ true
      → (s' : Store D I) × (set_key db ix can_open (some p) s k v ≡ ok s')
        × ((table : TableFlags)
            → value_of (get_key db ix can_open table (some p) s' k) ≡ ok (some v))
        × ((table : TableFlags) → value_of (get_key db ix can_open table none s' k) ≡ ok (some v))
        × ((j : B)
            → value_of (get_key db ix can_open plain_table (some p) s' j) ≡ (
                if k == j
                then ok (some v)
                else value_of (get_key db ix can_open plain_table (some p) s j)))
        × ((q : ℕ) → p ≢ q → s'.files q ≡ s.files q)
  unfolding set_key
  set_key-get_key s p k v h =
      let (t, opened, same, open_now) = opened_lem can_open s p h in
      let d = db.put_value (t.files p) k v in
      let s' : Store D I = record t {
        key_index = ix.note t.key_index k p;
        files = with_file t.files p d;
      } in
      let there : db.get_value (s'.files p) k ≡ some v =
        get-put_file db t.files p k v p k ∙ ground (arith, bytes.beq_iff k k) in
      let found = bucket_found s' k v p (ix.look-note t.key_index k p) open_now there in
      (
        s',
        rw opened refl,
        (λ table. get_key-either table s' p k (some v) h there found),
        (λ table. get_key-outside table s' k (some v) found),
        (λ j.
            get_key_lem s' p j h
            ∙ rw (same, get-put_file db s.files p k v p j, get_key_lem s p j h) (ground arith)),
        (λ q n. ground (arith, n, ap (λ f. f q) same)),
      )
