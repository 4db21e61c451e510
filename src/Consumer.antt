-- ===== src/Consumer.antt =====
-- faust/transport/consumer.py: the state of `Consumer`, and what it knows of its partitions.
-- A defaultdict is a dictionary with a default where it is read; only of `_acked` does the
-- program list the keys.
pub mod Intervals
pub mod Offsets
pub mod Acks
pub mod Commit
pub mod Transactions
use faust.Common.{
  ℕ, ◌+◌, ◌-◌, ◌≤◌, ◌≡◌, refl, Bool, true, false, not, ◌&&◌, ◌||◌, List, [], ◌∷◌, ◌++◌, Option,
  none, some, arith, if◌then◌else◌, ◌==◌, nat_eq, contains, keep, any, include, union, difference,
  intersection,
}
use faust.Common.Dict.{Dict, get, put, remove, get-put}
use faust.Types.{Tp, tp_eq, tp_beq_iff, Message}
use faust.Consumer.Intervals.{IntervalTree}

-- `d[k]` of a defaultdict
abbrev pub get_default {ℓ} : {V : Type ℓ} → Dict Tp V → Tp → V → V
get_default d tp v = elim (get d tp) [ none ↦ v | some w ↦ w ]

pub get_default-put {ℓ} :
    {V : Type ℓ} (d : Dict Tp V) (k j : Tp) (v w : V)
    → get_default (put d k v) j w ≡ (if k == j then v else get_default d j w)
get_default-put d k j v w = ground (arith, get-put d k j v)

pub get_default-put_self {ℓ} :
    {V : Type ℓ} (d : Dict Tp V) (k : Tp) (v w : V) → get_default (put d k v) k w ≡ v
get_default-put_self d k v w = ground (arith, get-put d k k v, (tp_beq_iff k k).1 refl)

abbrev pub remove_all {ℓ} : {V : Type ℓ} → Dict Tp V → List Tp → Dict Tp V
remove_all d [] = d
remove_all d (tp ∷ tps) = remove_all (remove d tp) tps

-- `d.update(other)`
abbrev pub update {ℓ} : {V : Type ℓ} → Dict Tp V → Dict Tp V → Dict Tp V
update d [] = d
update d ((tp, v) ∷ other) = update (put d tp v) other

-- `offset if offset else None`
abbrev pub or_none : ℕ → Option ℕ
or_none offset = if offset == 0 then none else some offset

module _ (it : IntervalTree) where
  open it use {Tree}

  -- The events are flags. A message of the set is its identity.
  pub record Consumer : Type 0 where
    pub active_partitions : Option (List Tp)
    pub paused_partitions : List Tp
    pub buffered_partitions : List Tp
    pub flow_active : Bool
    pub can_resume_flow : Bool
    pub suspend_flow : Bool
    pub acked : Dict Tp (List ℕ)
    pub acked_index : Dict Tp (List ℕ)
    pub gap : Dict Tp Tree
    pub read_offset : Dict Tp (Option ℕ)
    pub committed_offset : Dict Tp (Option ℕ)
    pub unacked_messages : List ℕ
    pub n_acked : ℕ

  unfoldable pub reset_state : Consumer → Consumer
  reset_state c = record c {
    active_partitions = some [];
    paused_partitions = [];
    buffered_partitions = [];
    flow_active = true;
    can_resume_flow = false;
    suspend_flow = false;
  }

  unfoldable pub set_active_tps : Consumer → List Tp → Consumer
  set_active_tps c tps = record c {
    active_partitions = some (difference (union [] tps) c.paused_partitions);
  }

  -- The active partitions, with `assignment()` where they are not known yet.
  unfoldable pub get_active_partitions : Consumer → List Tp → Consumer × List Tp
  unfolding set_active_tps
  get_active_partitions c assignment = elim c.active_partitions [
    | none ↦ (set_active_tps c assignment, difference (union [] assignment) c.paused_partitions)
    | some tps ↦ (c, tps)
  ]

  unfoldable pub on_buffer_full : Consumer → List Tp → Bool → Tp → Consumer
  unfolding get_active_partitions
  on_buffer_full c assignment in_recovery tp =
      if in_recovery
      then c
      else let (c', tps) = get_active_partitions c assignment in
        record c' {
          active_partitions = some (difference tps (tp ∷ []));
          buffered_partitions = include c.buffered_partitions tp;
        }

  unfoldable pub on_buffer_drop : Consumer → List Tp → Tp → Consumer
  unfolding get_active_partitions
  on_buffer_drop c assignment tp =
      if contains c.buffered_partitions tp
      then (let (c', tps) = get_active_partitions c assignment in
          record c' {
            active_partitions = some (include tps tp);
            buffered_partitions = difference c.buffered_partitions (tp ∷ []);
          })
      else c

  -- `offset` of `seek_to_committed` is absent or not negative.
  abbrev seek_offsets : Dict Tp (Option ℕ) → Dict Tp (Option ℕ)
  seek_offsets [] = []
  seek_offsets ((tp, none) ∷ rest) = seek_offsets rest
  seek_offsets ((tp, some offset) ∷ rest) = (tp, or_none offset) ∷ seek_offsets rest

  unfoldable pub perform_seek : Consumer → Dict Tp (Option ℕ) → Consumer
  perform_seek c committed_offsets = record c {
    read_offset = update c.read_offset committed_offsets;
    committed_offset = update c.committed_offset (seek_offsets committed_offsets);
  }

  unfoldable pub seek : Consumer → Tp → ℕ → Consumer
  seek c tp offset = record c { read_offset = put c.read_offset tp (or_none offset) }

  unfoldable pub stop_flow : Consumer → Consumer
  stop_flow c = record c { flow_active = false; can_resume_flow = false; suspend_flow = true }

  unfoldable pub resume_flow : Consumer → Consumer
  resume_flow c = record c { flow_active = true; can_resume_flow = true; suspend_flow = false }

  unfoldable pub pause_partitions : Consumer → List Tp → List Tp → Consumer
  unfolding get_active_partitions
  pause_partitions c assignment tps =
      let (c', active) = get_active_partitions c assignment in
      record c' {
        active_partitions = some (difference active tps);
        paused_partitions = union c.paused_partitions tps;
      }

  unfoldable pub resume_partitions : Consumer → List Tp → List Tp → Consumer
  unfolding get_active_partitions
  resume_partitions c assignment tps =
      let (c', active) = get_active_partitions c assignment in
      record c' {
        active_partitions = some (union active tps);
        paused_partitions = difference c.paused_partitions tps;
      }

  unfoldable pub on_partitions_revoked : Consumer → List Tp → Consumer
  on_partitions_revoked c revoked = record c {
    active_partitions = elim c.active_partitions [
      | none ↦ none
      | some tps ↦ some (difference tps revoked)
    ];
    paused_partitions = difference c.paused_partitions revoked;
    gap = remove_all c.gap revoked;
    acked = remove_all c.acked revoked;
    acked_index = remove_all c.acked_index revoked;
    read_offset = remove_all c.read_offset revoked;
    committed_offset = remove_all c.committed_offset revoked;
  }

  unfoldable pub on_partitions_assigned : Consumer → List Tp → Consumer
  unfolding set_active_tps
  on_partitions_assigned c assigned =
      set_active_tps (record c { paused_partitions = intersection c.paused_partitions assigned })
        assigned

  unfoldable pub track_message : Consumer → Message → Consumer
  track_message c m = record c { unacked_messages = include c.unacked_messages m.ident }
