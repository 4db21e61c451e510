-- ===== src/Tests/RocksRuns.antt =====
-- A persistent store over databases that are dictionaries with numbers as bytes.
use faust.Common.{
  ℕ, ◌||◌, ◌+◌, ◌≡◌, ◌≢◌, inl, inr, ◌⊎◌, refl, Bool, true, false, List, [], ◌∷◌, Option, none, some,
  arith, if◌then◌else◌, ◌==◌, nat_eq, nat_beq, string_eq, contains, length, map, ok, ◌>>=◌,
  Bool-cases,
}
use faust.Common.Dict.{
  Dict, get, put, remove, get-put, get-remove, HasDistinctKeys, put-HasDistinctKeys,
}
use faust.Types.{Tp, tp_eq}
use faust.Rocks.{
  Database, KeyIndex, Store, written, db_for_partition, set_key, get_key, del_key, TableFlags,
  plain_table, get_from,
}
use faust.Rocks.Access.{value_of, set_key-get_key}
use faust.Rocks.Deletion.{del_key-keeps_event_value}
use faust.Rocks.Batches.{Event, apply_changelog_batch, persisted_offset}
use faust.Rocks.Collected.{newest, last_value}
use faust.Rocks.Applied.{offset_of, or_else, apply_changelog_batch-last_value}
use faust.Rocks.Rebalance.{Attempt, opened, locked, on_rebalance, is_mine}
use faust.Rocks.Attempts.{Outcome, opens, gives_up, Ends}
use faust.Rocks.Turns.{cannot_open, kept, opened_by, IsRebalanced}
use faust.Rocks.Opened.{on_rebalance_lem}
use faust.Rocks.Items.{iteritems, iterkeys, itervalues, size, first, second}
use faust.Rocks.Listed.{holds_item, pair_eq, iteritems_lem}
use faust.Rocks.Unseen.{del_key-listed_unseen}

remove-HasDistinctKeys : (d : Dict ℕ ℕ) (k : ℕ) → HasDistinctKeys d → HasDistinctKeys (remove d k)
unfolding remove get
remove-HasDistinctKeys [] k h = tt
remove-HasDistinctKeys ((j, v) ∷ d) k h = elim (Bool-cases (nat_beq j k)) [
  | inl y ↦ rw (y, remove) (remove-HasDistinctKeys d k h.1)
  | inr n ↦ rw (n, remove) (ground (arith, get-remove d k j, h.0), remove-HasDistinctKeys d k h.1)
]

abbrev Bytes : Type 0
Bytes = (d : Dict ℕ ℕ) × HasDistinctKeys d

abbrev write_all : Bytes → List (ℕ × Option ℕ) → Bytes
write_all d [] = d
write_all (d, h) ((k, none) ∷ operations) =
    write_all (remove d k, remove-HasDistinctKeys d k h) operations
write_all (d, h) ((k, some v) ∷ operations) =
    write_all (put d k v, put-HasDistinctKeys d k v h) operations

get-write_all :
    (d : Bytes) (operations : List (ℕ × Option ℕ)) (k : ℕ)
    → get (write_all d operations).0 k ≡ written (get d.0 k) operations k
unfolding written
get-write_all d [] k = refl
get-write_all (d, h) ((j, none) ∷ operations) k =
    rw (get-write_all (remove d j, remove-HasDistinctKeys d j h) operations k, get-remove d j k)
      refl
get-write_all (d, h) ((j, some v) ∷ operations) k =
    rw (get-write_all (put d j v, put-HasDistinctKeys d j v h) operations k, get-put d j k v) refl

abbrev dictionaries : Database Bytes ℕ nat_eq
dictionaries = record {
  get_value = λ d k. get d.0 k;
  put_value = λ d k v. (put d.0 k v, put-HasDistinctKeys d.0 k v d.1);
  delete_value = λ d k. (remove d.0 k, remove-HasDistinctKeys d.0 k d.1);
  key_may_exist = λ d k. true;
  write = write_all;
  items = λ d. d.0;
  get-put_value = λ d k j v. get-put d.0 k j v;
  get-delete_value = λ d k j. get-remove d.0 k j;
  get-write = get-write_all;
  may_exist = λ d k v h. refl;
  get-items = λ d k. refl;
  items-HasDistinctKeys = λ d. d.1;
}

look-put : (i : Dict ℕ ℕ) (k p : ℕ) → get (put i k p) k ≡ some p
look-put i k p = ground (arith, get-put i k k p)

look-put_other :
    (i : Dict ℕ ℕ) (k j p : ℕ) → k ≢ j → (get (put i k p) j ≡ none) ⊎ (get (put i k p) j ≡ get i j)
look-put_other i k j p n = inr (ground (arith, get-put i k j p, n))

look-nothing : (k : ℕ) → get {K = ℕ} {V = ℕ} [] k ≡ none
unfolding get
look-nothing k = refl

abbrev index : KeyIndex (Dict ℕ ℕ) ℕ nat_eq
index = record {
  look = λ i k. get i k;
  used = λ i k. i;
  note = λ i k p. put i k p;
  clear = [];
  look-used = λ i k j. refl;
  look-note = look-put;
  look-note_other = look-put_other;
  look-clear = look-nothing;
}

distinct_key : (k v : ℕ) → HasDistinctKeys ((k, v) ∷ [])
unfolding get
distinct_key k v = (refl, tt)

-- Key 5 has the value 50 in partition 0 and 51 in partition 1, and the index names partition 0.
abbrev file : ℕ → Bytes
file p = ((5, 50 + p) ∷ [], distinct_key 5 (50 + p))

abbrev store : Store Bytes (Dict ℕ ℕ)
store = record { files = file; dbs = 0 ∷ 1 ∷ []; key_index = (5, 0) ∷ [] }

abbrev offset_key : ℕ
offset_key = 1000

abbrev every : ℕ → Bool
every p = true

abbrev global_table : TableFlags
global_table = record { is_global = true; use_partitioner = false }

abbrev changelog : ℕ → Tp
changelog p = record { topic = "table"; partition = p }

abbrev batch : List (Event ℕ)
batch =
    record { tp = changelog 0; offset = 7; key = 5; value = none }
    ∷ record { tp = changelog 2; offset = 3; key = 5; value = some 9 }
    ∷ []

distinct_offset : (offset : ℕ) → offset ≡ offset
distinct_offset offset = refl

set_key-get_key_example :
    (s' : Store Bytes (Dict ℕ ℕ)) × (set_key dictionaries index every (some 2) store 5 9 ≡ ok s')
    × ((table : TableFlags)
        → value_of (get_key dictionaries index every table (some 2) s' 5) ≡ ok (some 9))
    × ((table : TableFlags)
        → value_of (get_key dictionaries index every table none s' 5) ≡ ok (some 9))
    × ((j : ℕ)
        → value_of (get_key dictionaries index every plain_table (some 2) s' j) ≡ (
            if 5 == j
            then ok (some 9)
            else value_of (get_key dictionaries index every plain_table (some 2) store j)))
    × ((q : ℕ) → 2 ≢ q → s'.files q ≡ store.files q)
set_key-get_key_example = set_key-get_key dictionaries index every store 2 5 9 refl

del_key-keeps_event_value_example :
    (value_of (
        get_key dictionaries index every plain_table
          (some 1)
          (del_key dictionaries index store 5)
          5)
      ≡ ok (some 51))
    × (get ((del_key dictionaries index store 5).files 0).0 5 ≡ none)
unfolding get get_key get_from db_for_partition
del_key-keeps_event_value_example =
    del_key-keeps_event_value dictionaries index every store 0 1 5 51 refl refl (omega arith) refl
      refl

apply_changelog_batch-last_value_example :
    (s' : Store Bytes (Dict ℕ ℕ)) × (apply_changelog_batch dictionaries offset_key
        (λ n. n)
        every
        store
        batch
      ≡ ok s')
    × ((p k : ℕ)
        → offset_key ≢ k
        → get (s'.files p).0 k ≡ last_value (get (store.files p).0 k) batch p k)
    × ((p : ℕ)
        → offset_of
            (persisted_offset dictionaries offset_key (λ n. n) (λ n. n) every s' (changelog p))
          ≡ (offset_of (
                persisted_offset dictionaries offset_key
                  (λ n. n)
                  (λ n. n)
                  every
                  store
                  (changelog p))
              >>= λ old. ok (or_else old (newest none batch (changelog p)))))
apply_changelog_batch-last_value_example =
    apply_changelog_batch-last_value dictionaries offset_key (λ n. n) (λ n. n) every "table" store
      batch (λ p. refl) distinct_offset (refl, (refl, tt))

-- Partition 2 is locked once, partition 3 until the consumer has a new generation.
abbrev answer : ℕ → ℕ → Attempt
answer p i = if p == 3 then locked else if i == 0 then locked else opened

abbrev changed : ℕ → ℕ → Bool
changed p i = p == 3

abbrev outcome : ℕ → Outcome
outcome p = if p == 3 then gives_up else opens

outcome-Ends : (p : ℕ) → Ends answer changed p (outcome p)
outcome-Ends p = elim (Bool-cases (nat_beq p 3)) [
  | inl y ↦ rw y (
    0,
    omega arith,
    (ground (arith, y), ground (arith, y), omega arith),
    λ j h. absurd (omega arith),
  )
  | inr n ↦
      rw n (1, omega arith, ground (arith, n), λ j h. (ground (arith, n, h), ground (arith, n)))
]

on_rebalance_example :
    IsRebalanced store
      (cannot_open
        (is_mine ("table" ∷ []) [] (λ tp. true))
        outcome
        (kept ("table" ∷ []) store (changelog 0 ∷ []))
        (changelog 2 ∷ changelog 3 ∷ []))
      (λ q.
        kept ("table" ∷ []) store (changelog 0 ∷ []) q
        || opened_by
            (is_mine ("table" ∷ []) [] (λ tp. true))
            outcome
            (changelog 2 ∷ changelog 3 ∷ [])
            q)
      (on_rebalance answer changed
        ("table" ∷ [])
        []
        (λ tp. true)
        store
        (changelog 0 ∷ [])
        (changelog 2 ∷ changelog 3 ∷ []))
on_rebalance_example =
    on_rebalance_lem answer changed outcome outcome-Ends ("table" ∷ []) [] (λ tp. true) store
      (changelog 0 ∷ []) (changelog 2 ∷ changelog 3 ∷ [])

iteritems_example :
    ((k v : ℕ)
      → contains (iteritems dictionaries offset_key (changelog 1 ∷ []) "table" false store) (k, v)
        ≡ holds_item dictionaries offset_key (changelog 1 ∷ []) "table" false store k v)
    × (iterkeys dictionaries offset_key (changelog 1 ∷ []) "table" false store
        ≡ map first (iteritems dictionaries offset_key (changelog 1 ∷ []) "table" false store))
    × (itervalues dictionaries offset_key (changelog 1 ∷ []) "table" false store
        ≡ map second (iteritems dictionaries offset_key (changelog 1 ∷ []) "table" false store))
    × (size dictionaries offset_key (changelog 1 ∷ []) "table" false store
        ≡ length (iteritems dictionaries offset_key (changelog 1 ∷ []) "table" false store))
iteritems_example = iteritems_lem dictionaries offset_key (changelog 1 ∷ []) "table" false store

del_key-listed_unseen_example :
    (value_of
        (get_key dictionaries index every global_table none (del_key dictionaries index store 5) 5)
      ≡ ok none)
    × (contains
          (iteritems dictionaries offset_key
            (changelog 1 ∷ [])
            "table"
            false
            (del_key dictionaries index store 5))
          (5, 51)
        ≡ true)
unfolding get
del_key-listed_unseen_example =
    del_key-listed_unseen dictionaries index every global_table offset_key (changelog 1 ∷ [])
      "table" false store 0 1 5 51 refl refl (omega arith) refl refl (omega arith) refl
