-- ===== src/Rocks/Deletion.antt =====
-- What a deletion deletes, and when a key is found that some database has.
use faust.Common.{
  ℕ, ◌≡◌, ◌≢◌, refl, sym, ap, ◌∙◌, Bool, true, ◌&&◌, List, [], ◌∷◌, Option, none, some,
  if◌then◌else◌, Eq, ◌==◌, nat_eq, nat_beq_iff, contains, arith, Bool-cases, Option-cases, inl, inr,
  ok, ◌>>=◌,
}
use faust.Rocks.{
  Database, KeyIndex, Store, with_file, write_to, search_dbs, dbs_for_key, after_look, get_key,
  delete_each, del_key, is_there, any_has, contains_key, TableFlags, plain_table,
  partition_from_message, get_from, contains_from,
}
use faust.Rocks.Access.{
  value_of, opened_lem, get_key_lem, found_value, get_bucket_for_key-search, dbs_for_key-indexed,
}

module _ {D I B : Type 0} ⦃bytes : Eq B⦄ (db : Database D B bytes) (ix : KeyIndex I B bytes) where
  delete_file :
      (s : Store D I) (k : B) (p q : ℕ) (j : B)
      → db.get_value (with_file s.files p (db.delete_value (s.files p) k) q) j
        ≡ (if p == q && k == j then none else db.get_value (s.files q) j)
  delete_file s k p q j = elim (Bool-cases (p == q)) [
    | inl y ↦
        let same : p ≡ q = (nat_beq_iff p q).0 y in
        rw y (
          db.get-delete_value (s.files p) k j
          ∙ ap (λ r. if k == j then none else db.get_value (s.files r) j) same)
    | inr n ↦ rw n refl
  ]

  delete_each_lem :
      (s : Store D I) (k : B) (ps : List ℕ) (q : ℕ) (j : B)
      → db.get_value ((delete_each db ix s k ps).files q) j
        ≡ (if contains ps q && k == j then none else db.get_value (s.files q) j)
  unfolding delete_each
  delete_each_lem s k [] q j = refl
  delete_each_lem s k (p ∷ ps) q j =
      delete_each_lem (write_to s p (db.delete_value (s.files p) k)) k ps q j
      ∙ ground (arith, delete_file s k p q j)

  -- A deletion deletes the key from the databases that are searched for it, and nothing else.
  pub del_key_lem :
      (s : Store D I) (k : B) (q : ℕ) (j : B)
      → db.get_value ((del_key db ix s k).files q) j ≡ (
          if contains (dbs_for_key db ix s k) q && k == j then none else db.get_value (s.files q) j)
  unfolding del_key
  del_key_lem s k q j = delete_each_lem (after_look db ix s k) k (dbs_for_key db ix s k) q j

  module _ (can_open : ℕ → Bool) where
    -- For a table that is not global and has no partitioner of its own, where the index places a
    -- key in an open partition p, and another partition q has a value for it too: after the key is
    -- deleted, a read during an event of q still gives q's value, and p has none, whichever
    -- partition the event of the deletion was of.
    pub del_key-keeps_event_value :
        (s : Store D I) (p q : ℕ) (k v : B)
        → ix.look s.key_index k ≡ some p
        → contains s.dbs p ≡ true
        → p ≢ q
        → can_open q ≡ true
        → value_of (get_key db ix can_open plain_table (some q) s k) ≡ ok (some v)
        → (value_of (get_key db ix can_open plain_table (some q) (del_key db ix s k) k)
            ≡ ok (some v))
          × (db.get_value ((del_key db ix s k).files p) k ≡ none)
    del_key-keeps_event_value s p q k v look there n h e = (
      get_key_lem db ix can_open (del_key db ix s k) q k h
          ∙ rw (del_key_lem s k q k, dbs_for_key-indexed db ix can_open s k p look there)
              (ground (arith, n, e, get_key_lem db ix can_open s q k h)),
      rw (del_key_lem s k p k, dbs_for_key-indexed db ix can_open s k p look there)
          (ground (arith, bytes.beq_iff k k)),
    )

    search_dbs-any_has :
        (s : Store D I) (k : B) (ps : List ℕ)
        → is_there (found_value (search_dbs db ix s k ps)) ≡ any_has db ix s k ps
    unfolding search_dbs any_has
    search_dbs-any_has s k [] = refl
    search_dbs-any_has s k (p ∷ ps) = elim (Option-cases (db.get_value (s.files p) k)) [
      | inl y ↦ elim (Bool-cases (db.key_may_exist (s.files p) k)) [
        | inl m ↦ rw (y, m) (search_dbs-any_has s k ps)
        | inr m ↦ rw m (search_dbs-any_has s k ps)
      ]
      | inr (v, y) ↦ rw (y, db.may_exist (s.files p) k v y) refl
    ]

    contains_from-get_from :
        (partition : Option ℕ) (s : Store D I) (k : B)
        → ((p : ℕ) → can_open p ≡ true)
        → value_of (contains_from db ix can_open partition s k)
          ≡ (value_of (get_from db ix can_open partition s k) >>= λ value. ok (is_there value))
    unfolding contains_from get_from
    contains_from-get_from none s k h = ap ok (
        sym (search_dbs-any_has (after_look db ix s k) k (dbs_for_key db ix s k))
        ∙ ap is_there (sym (get_bucket_for_key-search db ix can_open s k)))
    contains_from-get_from (some p) s k h =
        let (t, opened, same, open_now) = opened_lem can_open s p (h p) in rw opened refl

    -- Where every database can be opened, a key is contained just when a read gives a value.
    pub contains_key-get_key :
        (table : TableFlags) (event : Option ℕ) (s : Store D I) (k : B)
        → ((p : ℕ) → can_open p ≡ true)
        → value_of (contains_key db ix can_open table event s k)
          ≡ (value_of (get_key db ix can_open table event s k) >>= λ value. ok (is_there value))
    unfolding contains_key get_key
    contains_key-get_key table event s k h =
        contains_from-get_from (partition_from_message event table) s k h

  -- A deletion opens and closes nothing, and leaves the index as it is, but for its order.
  delete_each_rest :
      (s : Store D I) (k : B) (ps : List ℕ)
      → ((delete_each db ix s k ps).dbs ≡ s.dbs)
        × ((delete_each db ix s k ps).key_index ≡ s.key_index)
  unfolding delete_each
  delete_each_rest s k [] = (refl, refl)
  delete_each_rest s k (p ∷ ps) =
      delete_each_rest (write_to s p (db.delete_value (s.files p) k)) k ps

  pub del_key_rest :
      (s : Store D I) (k : B)
      → ((del_key db ix s k).dbs ≡ s.dbs) × ((del_key db ix s k).key_index ≡ ix.used s.key_index k)
  unfolding del_key
  del_key_rest s k = delete_each_rest (after_look db ix s k) k (dbs_for_key db ix s k)
