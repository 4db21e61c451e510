-- ===== src/Rocks/Rebalance.antt =====
-- faust/stores/rocksdb.py: which databases a rebalance closes and opens. What RocksDB answers when it
-- is asked to open a database, whether the consumer's generation has changed since, and whether
-- `rebalance_ack` still holds when a partition's turn comes, are functions. Nothing else
-- reads or writes the table while a rebalance waits.
use faust.Common.{
  ℕ, zero, suc, ◌+◌, Bool, true, false, not, ◌&&◌, List, [], ◌∷◌, ◌++◌, Option, none, some, String,
  if◌then◌else◌, Eq, ◌==◌, nat_eq, string_eq, contains, keep, Error, io_error, Result, ok, err,
}
use faust.Types.{Tp, tp_eq}
use faust.Rocks.{Store, KeyIndex}

-- What comes of an attempt to open a database
pub data Attempt : Type 0 where
  opened locked failed : Attempt

abbrev pub max_retries : ℕ
max_retries = 30

-- Whether a partition that is newly assigned is one to open
abbrev pub is_mine : List String → List Tp → (Tp → Bool) → Tp → Bool
is_mine my_topics standby_tps acked tp =
    contains my_topics tp.topic && not (contains standby_tps tp) && acked tp

module _ {D I : Type 0} where
  abbrev pub close_dbs : Store D I → Store D I
  close_dbs s = record s { dbs = [] }

  abbrev pub close_db : Store D I → ℕ → Store D I
  close_db s p = record s { dbs = keep (λ q. not (q == p)) s.dbs }

  -- `stop`
  unfoldable pub stop : Store D I → Store D I
  stop s = close_dbs s

  unfoldable pub revoke_partitions : List String → Store D I → List Tp → Store D I
  revoke_partitions my_topics s [] = s
  revoke_partitions my_topics s (tp ∷ tps) =
      revoke_partitions my_topics
        (if contains my_topics tp.topic then close_db s tp.partition else s) tps

  -- `_try_open_db_for_partition`, with the number of the attempt and how many there are left
  unfoldable pub try_open :
      (ℕ → ℕ → Attempt) → (ℕ → ℕ → Bool) → Store D I → ℕ → ℕ → ℕ → Store D I × Option Error
  unfolding stop
  try_open answer changed s p i zero = (s, none)
  try_open answer changed s p i (suc left) =
      let again = try_open answer changed s p (i + 1) left in
      if contains s.dbs p then (s, none) else elim (answer p i) [
        | opened ↦ (record s { dbs = s.dbs ++ p ∷ [] }, none)
        | failed ↦ (stop s, some io_error)
        | locked ↦
            if left == 0 then (stop s, some io_error) else if changed p i then (s, none) else again
      ]

  unfoldable pub try_open_db_for_partition :
      (ℕ → ℕ → Attempt) → (ℕ → ℕ → Bool) → Store D I → ℕ → Store D I × Option Error
  unfolding try_open
  try_open_db_for_partition answer changed s p = try_open answer changed s p 0 max_retries

  abbrev pub and_then :
      Store D I × Option Error → (Store D I → Store D I × Option Error) → Store D I × Option Error
  and_then (s, none) next = next s
  and_then (s, some error) next = (s, some error)

  unfoldable pub assign_partitions :
      (ℕ → ℕ → Attempt)
      → (ℕ → ℕ → Bool)
      → List String
      → List Tp
      → (Tp → Bool)
      → Store D I
      → List Tp
      → Store D I × Option Error
  unfolding try_open_db_for_partition
  assign_partitions answer changed my_topics standby_tps acked s [] = (s, none)
  assign_partitions answer changed my_topics standby_tps acked s (tp ∷ tps) =
      and_then
        (if is_mine my_topics standby_tps acked tp
          then try_open_db_for_partition answer changed s tp.partition
          else (s, none))
        λ s'. assign_partitions answer changed my_topics standby_tps acked s' tps

  unfoldable pub on_rebalance :
      (ℕ → ℕ → Attempt)
      → (ℕ → ℕ → Bool)
      → List String
      → List Tp
      → (Tp → Bool)
      → Store D I
      → List Tp
      → List Tp
      → Store D I × Option Error
  unfolding revoke_partitions assign_partitions
  on_rebalance answer changed my_topics standby_tps acked s revoked newly_assigned =
      assign_partitions answer changed my_topics standby_tps acked
        (revoke_partitions my_topics s revoked) newly_assigned

  -- `need_active_standby_for`, with what comes of opening the database
  unfoldable pub need_active_standby_for : (ℕ → Attempt) → Store D I → Tp → Store D I × Result Bool
  need_active_standby_for answer s tp =
      if contains s.dbs tp.partition then (s, ok true) else elim (answer tp.partition) [
        | opened ↦ (record s { dbs = s.dbs ++ tp.partition ∷ [] }, ok true)
        | locked ↦ (s, ok false)
        | failed ↦ (s, err io_error)
      ]

-- `reset_state`, with the files of an empty directory
unfoldable pub reset_state :
    {D I B : Type 0} ⦃bytes : Eq B⦄ → KeyIndex I B bytes → D → Store D I → Store D I
reset_state ix empty s = record { files = λ p. empty; dbs = []; key_index = ix.clear }
