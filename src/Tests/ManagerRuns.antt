-- ===== src/Tests/ManagerRuns.antt =====
-- Offsets that two partitions sent to their changelogs.
use faust.Common.{ℕ, false, [], ◌∷◌, nat_eq}
use faust.Types.{Tp, tp_eq}
use faust.Manager.{TableManager}

abbrev changelog : ℕ → Tp
changelog p = record { topic = "table-changelog"; partition = p }

abbrev manager : TableManager
manager = record {
  tables = [];
  changelogs = [];
  tables_finalized = false;
  tables_registered = false;
  channels = [];
  actives_ready = false;
  standbys_ready = false;
  pending_persisted_offsets = (changelog 0, (7, 4)) ∷ [];
}
