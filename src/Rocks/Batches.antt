-- ===== src/Rocks/Batches.antt =====
-- faust/stores/rocksdb.py: batches of the changelog, and the offset that a database keeps of itself.
-- Where a database cannot be opened, what the call has done before is left out.
use faust.Common.{
  ℕ, max, Bool, List, [], ◌∷◌, ◌++◌, Option, none, some, Eq, nat_eq, string_eq, Result, ok, ◌>>=◌,
}
use faust.Common.Dict.{Dict, get, put}
use faust.Types.{Tp, tp_eq}
use faust.Rocks.{Database, Store, with_file, db_for_partition}

-- A changelog event with its raw key and value
pub record Event (B : Type 0) : Type 0 where
  pub tp : Tp
  pub offset : ℕ
  pub key : B
  pub value : Option B

-- `offset if tp not in tp_offsets else max(offset, tp_offsets[tp])`
abbrev pub later_offset : ℕ → Option ℕ → ℕ
later_offset offset none = offset
later_offset offset (some o) = max offset o

unfoldable pub tp_offsets : {B : Type 0} → Dict Tp ℕ → List (Event B) → Dict Tp ℕ
tp_offsets offsets [] = offsets
tp_offsets offsets (event ∷ batch) =
    tp_offsets (put offsets event.tp (later_offset event.offset (get offsets event.tp))) batch

-- The write batch of a partition in the `defaultdict`
abbrev pub or_empty : {A : Type 0} → Option (List A) → List A
or_empty none = []
or_empty (some xs) = xs

unfoldable pub batches :
    {B : Type 0} → Dict ℕ (List (B × Option B)) → List (Event B) → Dict ℕ (List (B × Option B))
batches writes [] = writes
batches writes (event ∷ batch) =
    let p = event.tp.partition in
    batches (put writes p (or_empty (get writes p) ++ (event.key, event.value) ∷ [])) batch

abbrev pub int_of : {B : Type 0} → (B → ℕ) → Option B → Option ℕ
int_of decode none = none
int_of decode (some value) = some (decode value)

module _ {D I B : Type 0} ⦃bytes : Eq B⦄ (db : Database D B bytes) (offset_key : B)
    (encode : ℕ → B) where
  unfoldable pub write_batches :
      (ℕ → Bool) → Store D I → Dict ℕ (List (B × Option B)) → Result (Store D I)
  unfolding db_for_partition
  write_batches can_open s [] = ok s
  write_batches can_open s ((p, operations) ∷ writes) = db_for_partition can_open s p >>= λ s'.
      write_batches can_open
        (record s' { files = with_file s'.files p (db.write (s'.files p) operations) }) writes

  unfoldable pub set_persisted_offset : (ℕ → Bool) → Store D I → Tp → ℕ → Result (Store D I)
  unfolding db_for_partition
  set_persisted_offset can_open s tp offset = do
    s' ← db_for_partition can_open s tp.partition
    ok (record s' {
      files =
          with_file s'.files tp.partition
            (db.put_value (s'.files tp.partition) offset_key (encode offset));
    })

  unfoldable pub set_persisted_offsets : (ℕ → Bool) → Store D I → Dict Tp ℕ → Result (Store D I)
  unfolding set_persisted_offset
  set_persisted_offsets can_open s [] = ok s
  set_persisted_offsets can_open s ((tp, offset) ∷ offsets) =
      set_persisted_offset can_open s tp offset >>= λ s'. set_persisted_offsets can_open s' offsets

  unfoldable pub apply_changelog_batch :
      (ℕ → Bool) → Store D I → List (Event B) → Result (Store D I)
  unfolding write_batches set_persisted_offsets
  apply_changelog_batch can_open s batch = do
    s' ← write_batches can_open s (batches [] batch)
    set_persisted_offsets can_open s' (tp_offsets [] batch)

  unfoldable pub persisted_offset :
      (B → ℕ) → (ℕ → Bool) → Store D I → Tp → Result (Store D I × Option ℕ)
  unfolding db_for_partition
  persisted_offset decode can_open s tp = do
    s' ← db_for_partition can_open s tp.partition
    ok (s', int_of decode (db.get_value (s'.files tp.partition) offset_key))
