-- ===== src/Rocks.antt =====
-- faust/stores/rocksdb.py: a table's store with a database for each partition. The database and the
-- cache that remembers the partition of a key are interfaces. A database that is closed keeps what
-- was written to it, and has it when it is opened again.
pub mod Access
pub mod Deletion
pub mod Batches
pub mod Collected
pub mod Applied
pub mod Rebalance
pub mod Attempts
pub mod Turns
pub mod Opened
pub mod Items
pub mod Listed
pub mod Unseen
use faust.Common.{
  ℕ, ◌≡◌, ◌≢◌, ◌⊎◌, Bool, true, false, not, ◌&&◌, List, [], ◌∷◌, ◌++◌, Option, none, some,
  if◌then◌else◌, Eq, ◌==◌, nat_eq, contains, Result, ok, err, assertion_error, io_error, check,
  ◌>>=◌, ◌>>◌,
}
use faust.Common.Dict.{Dict, get, HasDistinctKeys}

-- What a key has after the operations of a batch: `(k, none)` deletes `k`, `(k, some v)` puts it.
unfoldable pub written : {B : Type 0} ⦃bytes : Eq B⦄ → Option B → List (B × Option B) → B → Option B
written old [] k = old
written old ((j, v) ∷ operations) k = written (if j == k then v else old) operations k

-- A database of the package rocksdb or rocksdict, with keys and values of `B`.
pub record Database (D B : Type 0) (bytes : Eq B) : Type 0 where
  pub get_value : D → B → Option B
  pub put_value : D → B → B → D
  pub delete_value : D → B → D
  pub key_may_exist : D → B → Bool
  pub write : D → List (B × Option B) → D
  pub items : D → List (B × B)
  pub get-put_value :
      (d : D) (k j : B) (v : B)
      → get_value (put_value d k v) j ≡ (if bytes.beq k j then some v else get_value d j)
  pub get-delete_value :
      (d : D) (k j : B)
      → get_value (delete_value d k) j ≡ (if bytes.beq k j then none else get_value d j)
  pub get-write :
      (d : D) (operations : List (B × Option B)) (k : B)
      → get_value (write d operations) k ≡ written ⦃bytes = bytes⦄ (get_value d k) operations k
  pub may_exist : (d : D) (k v : B) → get_value d k ≡ some v → key_may_exist d k ≡ true
  pub get-items : (d : D) (k : B) → get ⦃e = bytes⦄ (items d) k ≡ get_value d k
  pub items-HasDistinctKeys : (d : D) → HasDistinctKeys ⦃e = bytes⦄ (items d)

-- The cache `_key_index` of limited size: it may forget a key, but does not make one up. Reading
-- it changes the order in which keys are forgotten.
pub record KeyIndex (I B : Type 0) (bytes : Eq B) : Type 0 where
  pub look : I → B → Option ℕ
  pub used : I → B → I
  pub note : I → B → ℕ → I
  pub clear : I
  pub look-used : (i : I) (k j : B) → look (used i k) j ≡ look i j
  pub look-note : (i : I) (k : B) (p : ℕ) → look (note i k p) k ≡ some p
  pub look-note_other :
      (i : I) (k j : B) (p : ℕ)
      → k ≢ j
      → (look (note i k p) j ≡ none) ⊎ (look (note i k p) j ≡ look i j)
  pub look-clear : (k : B) → look clear k ≡ none

-- `dbs` are the open databases, in the order in which they were opened; `files` is what each
-- partition's database holds, open or not.
pub record Store (D I : Type 0) : Type 0 where
  pub files : ℕ → D
  pub dbs : List ℕ
  pub key_index : I

abbrev pub with_file : {D : Type 0} → (ℕ → D) → ℕ → D → ℕ → D
with_file files p d q = if p == q then d else files q

-- `table.is_global` and `table.use_partitioner`
pub record TableFlags : Type 0 where
  pub is_global : Bool
  pub use_partitioner : Bool

-- The flags of a table that has none
abbrev pub plain_table : TableFlags
plain_table = record { is_global = false; use_partitioner = false }

-- The partition of the current event's message, where a read is to go by it
abbrev pub partition_from_message : Option ℕ → TableFlags → Option ℕ
partition_from_message none table = none
partition_from_message (some p) table =
    if not table.is_global && not table.use_partitioner then some p else none

-- The database that the index names, if it is open, or else all that are
abbrev pub indexed_dbs : List ℕ → Option ℕ → List ℕ
indexed_dbs dbs none = dbs
indexed_dbs dbs (some p) = if contains dbs p then p ∷ [] else dbs

abbrev pub is_there : {B : Type 0} → Option B → Bool
is_there none = false
is_there (some v) = true

module _ {D I : Type 0} where
  abbrev pub write_to : Store D I → ℕ → D → Store D I
  write_to s p d = record s { files = with_file s.files p d }

  -- `_db_for_partition`: a database that is not open is opened, if it can be.
  unfoldable pub db_for_partition : (ℕ → Bool) → Store D I → ℕ → Result (Store D I)
  db_for_partition can_open s p =
      if contains s.dbs p
      then ok s
      else if can_open p
      then ok (record s { dbs = s.dbs ++ p ∷ [] })
      else err io_error

module _ {D I B : Type 0} ⦃bytes : Eq B⦄ (db : Database D B bytes) (ix : KeyIndex I B bytes) where
  -- `_set`, with the partition of the current event
  unfoldable pub set_key : (ℕ → Bool) → Option ℕ → Store D I → B → B → Result (Store D I)
  set_key can_open none s key value = err assertion_error
  set_key can_open (some p) s key value = do
    s' ← db_for_partition can_open s p
    ok (record s' {
      key_index = ix.note s'.key_index key p;
      files = with_file s'.files p (db.put_value (s'.files p) key value);
    })

  -- The first of these databases that has the key
  unfoldable pub search_dbs : Store D I → B → List ℕ → Option (ℕ × B)
  search_dbs s key [] = none
  search_dbs s key (p ∷ ps) =
      let rest = search_dbs s key ps in
      if db.key_may_exist (s.files p) key
      then elim (db.get_value (s.files p) key) [ none ↦ rest | some v ↦ some (p, v) ]
      else rest

  -- `_dbs_for_key`
  unfoldable pub dbs_for_key : Store D I → B → List ℕ
  dbs_for_key s key = indexed_dbs s.dbs (ix.look s.key_index key)

  abbrev pub after_look : Store D I → B → Store D I
  after_look s key = record s { key_index = ix.used s.key_index key }

  -- `_get_bucket_for_key`
  unfoldable pub get_bucket_for_key : Store D I → B → Store D I × Option B
  get_bucket_for_key s key =
      let s' = after_look s key in
      elim (search_dbs s' key (dbs_for_key s key)) [
        | none ↦ (s', none)
        | some (p, v) ↦ (record s' { key_index = ix.note s'.key_index key p }, some v)
      ]

  abbrev pub noted : Store D I → B → ℕ → Option B → Store D I
  noted s key p none = s
  noted s key p (some v) = record s { key_index = ix.note s.key_index key p }

  -- `_get`, by the partition of the message or without one
  unfoldable pub get_from : (ℕ → Bool) → Option ℕ → Store D I → B → Result (Store D I × Option B)
  get_from can_open none s key = ok (get_bucket_for_key s key)
  get_from can_open (some p) s key = do
    s' ← db_for_partition can_open s p
    let value = db.get_value (s'.files p) key
    ok (noted s' key p value, value)

  unfoldable pub delete_each : Store D I → B → List ℕ → Store D I
  delete_each s key [] = s
  delete_each s key (p ∷ ps) = delete_each (write_to s p (db.delete_value (s.files p) key)) key ps

  -- `_del`
  unfoldable pub del_key : Store D I → B → Store D I
  del_key s key = delete_each (after_look s key) key (dbs_for_key s key)

  unfoldable pub any_has : Store D I → B → List ℕ → Bool
  any_has s key [] = false
  any_has s key (p ∷ ps) =
      let rest = any_has s key ps in
      if db.key_may_exist (s.files p) key && is_there (db.get_value (s.files p) key)
      then true
      else rest

  -- `_contains`, likewise
  unfoldable pub contains_from : (ℕ → Bool) → Option ℕ → Store D I → B → Result (Store D I × Bool)
  contains_from can_open none s key =
      ok (after_look s key, any_has (after_look s key) key (dbs_for_key s key))
  contains_from can_open (some p) s key = do
    s' ← db_for_partition can_open s p
    ok (s', is_there (db.get_value (s'.files p) key))

  -- `_get`, with the partition of the current event, if there is one
  unfoldable pub get_key :
      (ℕ → Bool) → TableFlags → Option ℕ → Store D I → B → Result (Store D I × Option B)
  unfolding get_from
  get_key can_open table event s key = get_from can_open (partition_from_message event table) s key

  -- `_contains`
  unfoldable pub contains_key :
      (ℕ → Bool) → TableFlags → Option ℕ → Store D I → B → Result (Store D I × Bool)
  unfolding contains_from
  contains_key can_open table event s key =
      contains_from can_open (partition_from_message event table) s key
