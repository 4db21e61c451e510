-- ===== src/Manager.antt =====
-- faust/tables/manager.py: the tables that an application has, and the offsets that are persisted
-- when their source partitions are committed. A table is known by a number, a store likewise.
pub mod Pending
use faust.Common.{
  ℕ, ◌≡◌, Bool, true, false, not, List, [], ◌∷◌, ◌++◌, map, Option, none, some, if◌then◌else◌, ltb,
  String, string_eq, Result, ok, err, runtime_error, value_error, assertion_error, check, ◌>>=◌,
  ◌>>◌,
}
use faust.Common.Dict.{Dict, get, put}
use faust.Types.{Tp, tp_eq}

pub record TableManager : Type 0 where
  pub tables : Dict String ℕ
  pub changelogs : Dict String ℕ
  pub tables_finalized : Bool
  pub tables_registered : Bool
  pub channels : List ℕ
  pub actives_ready : Bool
  pub standbys_ready : Bool
  pub pending_persisted_offsets : Dict Tp (ℕ × ℕ)

abbrev pub has : {A : Type 0} → Option A → Bool
has none = false
has (some a) = true

-- A later offset of the partition takes the place of an earlier one.
unfoldable pub persist_offset_on_commit : TableManager → ℕ → Tp → ℕ → TableManager
persist_offset_on_commit m store tp offset =
    let marked = record m {
      pending_persisted_offsets = put m.pending_persisted_offsets tp (store, offset);
    } in
    elim (get m.pending_persisted_offsets tp) [
      | none ↦ marked
      | some (_, existing_offset) ↦ if ltb offset existing_offset then m else marked
    ]

-- The calls of `set_persisted_offset`: the store, the partition and the offset
unfoldable pub on_commit_tp : TableManager → Tp → List (ℕ × Tp × ℕ)
on_commit_tp m tp = elim (get m.pending_persisted_offsets tp) [
  | none ↦ []
  | some (store, offset) ↦ (store, tp, offset) ∷ []
]

unfoldable pub on_commit : TableManager → List Tp → List (ℕ × Tp × ℕ)
unfolding on_commit_tp
on_commit m [] = []
on_commit m (tp ∷ tps) = on_commit_tp m tp ++ on_commit m tps

abbrev pub on_rebalance_start : TableManager → TableManager
on_rebalance_start m = record m { actives_ready = false; standbys_ready = false }

abbrev pub on_actives_ready : TableManager → TableManager
on_actives_ready m = record m { actives_ready = true }

abbrev pub on_standbys_ready : TableManager → TableManager
on_standbys_ready m = record m { standbys_ready = true }

-- `name` is the table's name, which may not be set yet.
unfoldable pub add : TableManager → Option String → String → ℕ → Result TableManager
add m name changelog_topic table = do
  check (not m.tables_finalized) runtime_error
  check (has name) assertion_error
  elim name [
    | none ↦ err assertion_error
    | some n ↦ do
      check (not (has (get m.tables n))) value_error
      ok (record m {
        tables = put m.tables n table;
        changelogs = put m.changelogs changelog_topic table;
      })
  ]
