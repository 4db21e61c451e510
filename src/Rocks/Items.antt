-- ===== src/Rocks/Items.antt =====
-- faust/stores/rocksdb.py: the keys, values and items of the databases of active partitions.
use faust.Common.{
  ℕ, Bool, not, ◌||◌, List, [], ◌∷◌, ◌++◌, map, length, String, Eq, ◌==◌, nat_eq, contains, keep,
  ◌+◌,
}
use faust.Types.{Tp, tp_eq}
use faust.Rocks.{Database, Store}

-- Whether the partition of the changelog topic is an active one, or the table is global
abbrev pub is_listed : List Tp → String → Bool → ℕ → Bool
is_listed actives topic is_global p =
    contains actives (record { topic = topic; partition = p }) || is_global

unfoldable pub dbs_for_actives : {D I : Type 0} → List Tp → String → Bool → Store D I → List ℕ
dbs_for_actives actives topic is_global s = keep (is_listed actives topic is_global) s.dbs

abbrev pub first : {A B : Type 0} → A × B → A
first x = x.0

abbrev pub second : {A B : Type 0} → A × B → B
second x = x.1

module _ {D B : Type 0} ⦃bytes : Eq B⦄ (db : Database D B bytes) (offset_key : B) where
  unfoldable pub visible_keys : D → List B
  visible_keys d = keep (λ k. not (k == offset_key)) (map first (db.items d))

  unfoldable pub visible_items : D → List (B × B)
  visible_items d = keep (λ x. not (first x == offset_key)) (db.items d)

  unfoldable pub visible_values : D → List B
  unfolding visible_items
  visible_values d = map second (visible_items d)

  -- `_size1`
  unfoldable pub size_of : D → ℕ
  unfolding visible_keys
  size_of d = length (visible_keys d)

-- The generators, one database after another
unfoldable pub chain : {D A : Type 0} → (D → List A) → (ℕ → D) → List ℕ → List A
chain list_of files [] = []
chain list_of files (p ∷ ps) = list_of (files p) ++ chain list_of files ps

unfoldable pub sum_of : {D : Type 0} → (D → ℕ) → (ℕ → D) → List ℕ → ℕ
sum_of count_of files [] = 0
sum_of count_of files (p ∷ ps) = count_of (files p) + sum_of count_of files ps

module _ {D I B : Type 0} ⦃bytes : Eq B⦄ (db : Database D B bytes) (offset_key : B)
    (actives : List Tp) (topic : String) (is_global : Bool) where
  unfoldable pub size : Store D I → ℕ
  unfolding size_of sum_of dbs_for_actives
  size s = sum_of (size_of db offset_key) s.files (dbs_for_actives actives topic is_global s)

  unfoldable pub iterkeys : Store D I → List B
  unfolding visible_keys chain dbs_for_actives
  iterkeys s =
      chain (visible_keys db offset_key) s.files (dbs_for_actives actives topic is_global s)

  unfoldable pub itervalues : Store D I → List B
  unfolding visible_values chain dbs_for_actives
  itervalues s =
      chain (visible_values db offset_key) s.files (dbs_for_actives actives topic is_global s)

  unfoldable pub iteritems : Store D I → List (B × B)
  unfolding visible_items chain dbs_for_actives
  iteritems s =
      chain (visible_items db offset_key) s.files (dbs_for_actives actives topic is_global s)
