-- ===== src/Recovery.antt =====
-- faust/tables/recovery.py: the offsets, highwaters and buffers of the `Recovery` service. The
-- consumer's answers are arguments, and what a table has been given is kept in `applied`.
pub mod Slurp
pub mod Buffers
pub mod Journal
pub mod Seen
pub mod Replay
pub mod Start
use faust.Common.{
  ℕ, zero, suc, ◌+◌, ◌-◌, ◌≤◌, ◌≡◌, refl, Bool, true, false, not, ◌&&◌, ◌||◌, List, [], ◌∷◌, ◌++◌,
  Option, none, some, arith, if◌then◌else◌, ◌==◌, nat_eq, contains, include, length, leb, any, keep,
}
use faust.Common.Dict.{Dict, get, put, remove}
use faust.Common.Int.{ℤ, pos, negsuc, ◌-ℤ◌, ltb_ℤ, max_ℤ}
use faust.Types.{Tp, tp_eq}

-- A changelog event: where it comes from, and what it says.
pub record Event (V : Type 0) : Type 0 where
  pub tp : Tp
  pub offset : ℕ
  pub payload : V

-- A table is known by a number. Its attributes are functions of it.
pub record Tables : Type 0 where
  pub recovery_buffer_size : ℕ → ℕ
  pub standby_buffer_size : ℕ → ℕ
  pub persisted_offset : ℕ → Tp → Option ℕ

abbrev pub at {ℓ} : {V : Type ℓ} → Dict ℕ (List V) → ℕ → List V
at d k = elim (get d k) [ none ↦ [] | some xs ↦ xs ]

-- `offsets.get(tp, None)`: a key may be there with the value `None`.
abbrev pub get_offset : Dict Tp (Option ℤ) → Tp → Option ℤ
get_offset d tp = elim (get d tp) [ none ↦ none | some o ↦ o ]

-- `offsets[tp]` of a Counter, which has 0 for a key that is not there
abbrev pub count_at : Dict Tp (Option ℤ) → Tp → Option ℤ
count_at d tp = elim (get d tp) [ none ↦ some (pos 0) | some o ↦ o ]

pub record Recovery (V : Type 0) : Type 0 where
  pub active_tps : List Tp
  pub standby_tps : List Tp
  pub tp_to_table : Dict Tp ℕ
  pub actives_for_table : Dict ℕ (List Tp)
  pub standbys_for_table : Dict ℕ (List Tp)
  pub active_offsets : Dict Tp (Option ℤ)
  pub standby_offsets : Dict Tp (Option ℤ)
  pub active_highwaters : Dict Tp ℤ
  pub standby_highwaters : Dict Tp ℤ
  pub buffers : Dict ℕ (List (Event V))
  pub buffer_sizes : Dict Tp ℕ
  pub in_recovery : Bool
  pub applied : Dict ℕ (List (Event V))

-- `offsets[tp] = persisted` if there is one, and `setdefault(tp, None)`
abbrev pub add_offset : Dict Tp (Option ℤ) → Tp → Option ℕ → Dict Tp (Option ℤ)
add_offset offsets tp (some o) = put offsets tp (some (pos o))
add_offset offsets tp none = elim (get offsets tp) [ none ↦ put offsets tp none | some _ ↦ offsets ]

-- `highwater - offsets[tp]`, for the partitions that have an offset
unfoldable pub remaining : Dict Tp ℤ → Dict Tp (Option ℤ) → Dict Tp ℤ
remaining [] offsets = []
remaining ((tp, highwater) ∷ rest) offsets =
    let others = remaining rest offsets in
    elim (count_at offsets tp) [ none ↦ others | some offset ↦ (tp, highwater -ℤ offset) ∷ others ]

module _ {V : Type 0} where
  unfoldable pub add_active : Tables → Recovery V → ℕ → Tp → Recovery V
  add_active tables r table tp = record r {
    active_tps = include r.active_tps tp;
    actives_for_table = put r.actives_for_table table (include (at r.actives_for_table table) tp);
    tp_to_table = put r.tp_to_table tp table;
    active_offsets = add_offset r.active_offsets tp (tables.persisted_offset table tp);
  }

  unfoldable pub add_standby : Tables → Recovery V → ℕ → Tp → Recovery V
  add_standby tables r table tp = record r {
    standby_tps = include r.standby_tps tp;
    standbys_for_table =
        put r.standbys_for_table table (include (at r.standbys_for_table table) tp);
    tp_to_table = put r.tp_to_table tp table;
    standby_offsets = add_offset r.standby_offsets tp (tables.persisted_offset table tp);
  }

  unfoldable pub revoke : Recovery V → Tp → Recovery V
  revoke r tp = record r {
    standby_offsets = remove r.standby_offsets tp;
    standby_highwaters = remove r.standby_highwaters tp;
    active_offsets = remove r.active_offsets tp;
    active_highwaters = remove r.active_highwaters tp;
  }

  unfoldable pub revoke_all : Recovery V → List Tp → Recovery V
  unfolding revoke
  revoke_all r [] = r
  revoke_all r (tp ∷ tps) = revoke_all (revoke r tp) tps

  -- `self.tables._changelogs.get(tp.topic)`, for every assigned changelog partition
  unfoldable pub add_actives : Tables → (Tp → Option ℕ) → Recovery V → List Tp → Recovery V
  unfolding add_active
  add_actives tables changelogs r [] = r
  add_actives tables changelogs r (tp ∷ tps) =
      add_actives tables changelogs
        (elim (changelogs tp) [ none ↦ r | some table ↦ add_active tables r table tp ]) tps

  unfoldable pub add_standbys : Tables → (Tp → Option ℕ) → Recovery V → List Tp → Recovery V
  unfolding add_standby
  add_standbys tables changelogs r [] = r
  add_standbys tables changelogs r (tp ∷ tps) =
      add_standbys tables changelogs
        (elim (changelogs tp) [ none ↦ r | some table ↦ add_standby tables r table tp ]) tps

  -- `stale` says that the generation is no more the consumer's. The signal that starts the next
  -- recovery is the result.
  unfoldable pub on_rebalance :
      Tables → (Tp → Option ℕ) → Bool → List Tp → List Tp → List Tp → Recovery V → Recovery V × Bool
  unfolding add_actives add_standbys revoke_all
  on_rebalance tables changelogs stale assigned_actives assigned_standbys revoked r =
      if stale
      then (r, false)
      else (let r₁ = revoke_all r revoked in
          let r₂ = record r₁ {
            standby_tps = [];
            active_tps = [];
            actives_for_table = [];
            standbys_for_table = [];
          } in
          let r₃ = add_standbys tables changelogs r₂ assigned_standbys in
          let r₄ = add_actives tables changelogs r₃ assigned_actives in
          (
            record r₄ { active_offsets = keep (λ e. contains r₄.active_tps e.0) r₄.active_offsets },
            true,
          ))

  -- Each buffer goes to its table and is cleared.
  abbrev pub apply_to : Dict ℕ (List (Event V)) → ℕ → List (Event V) → Dict ℕ (List (Event V))
  apply_to applied table batch = put applied table (at applied table ++ batch)

  unfoldable pub flush_each :
      Dict ℕ (List (Event V)) → Dict ℕ (List (Event V)) → Dict ℕ (List (Event V))
  flush_each applied [] = applied
  flush_each applied ((table, buffer) ∷ rest) = flush_each (apply_to applied table buffer) rest

  abbrev pub cleared : Dict ℕ (List (Event V)) → Dict ℕ (List (Event V))
  cleared [] = []
  cleared ((table, buffer) ∷ rest) = (table, []) ∷ cleared rest

  unfoldable pub flush_buffers : Recovery V → Recovery V
  unfolding flush_each
  flush_buffers r = record r {
    buffers = cleared r.buffers;
    applied = flush_each r.applied r.buffers;
  }

  unfoldable pub active_remaining : Recovery V → Dict Tp ℤ
  unfolding remaining
  active_remaining r = remaining r.active_highwaters r.active_offsets

  unfoldable pub need_recovery : Recovery V → Bool
  unfolding active_remaining
  need_recovery r = any (λ e. ltb_ℤ (pos 0) e.1) (active_remaining r)

  -- `_maybe_signal_recovery_end`, without transactions; the result is the signal.
  unfoldable pub maybe_signal_recovery_end : Recovery V → Recovery V × Bool
  unfolding flush_buffers need_recovery
  maybe_signal_recovery_end r =
      if r.in_recovery && not (need_recovery r)
      then (record (flush_buffers r) { in_recovery = false }, true)
      else (r, false)
