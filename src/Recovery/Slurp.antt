-- ===== src/Recovery/Slurp.antt =====
-- The body of the loop of `_slurp_changelogs` in faust/tables/recovery.py.
use faust.Common.{
  ℕ, Bool, true, false, [], ◌∷◌, ◌++◌, Option, none, some, if◌then◌else◌, nat_eq, contains, length,
  leb,
}
use faust.Common.Dict.{Dict, get, put}
use faust.Common.Int.{ℤ, pos, ltb_ℤ}
use faust.Types.{Tp, tp_eq}
use faust.Recovery.{Event, Tables, Recovery, at, get_offset, apply_to, maybe_signal_recovery_end}

-- The variables `offsets` and `table` of the loop, which outlive a round: whether the offsets are
-- those of the active partitions, and the table.
pub record Source : Type 0 where
  pub is_active : Bool
  pub table : ℕ

-- How a round ends: the event was taken, it was seen before, or an exception was logged.
pub data Outcome : Type 0 where
  taken seen failed : Outcome

-- `seen_offset is None or offset > seen_offset`
abbrev pub is_unseen : Option ℤ → ℕ → Bool
is_unseen none offset = true
is_unseen (some o) offset = ltb_ℤ o (pos offset)

module _ {V : Type 0} where
  abbrev pub offsets_of : Recovery V → Source → Dict Tp (Option ℤ)
  offsets_of r s = if s.is_active then r.active_offsets else r.standby_offsets

  abbrev pub with_offset : Recovery V → Source → Tp → ℕ → Recovery V
  with_offset r s tp offset =
      if s.is_active
      then record r { active_offsets = put r.active_offsets tp (some (pos offset)) }
      else record r { standby_offsets = put r.standby_offsets tp (some (pos offset)) }

  -- The table that the event belongs to, and the kind of its partition; `none` for an unknown one.
  unfoldable pub source_of : Recovery V → Tp → Option (Bool × Option ℕ)
  source_of r tp =
      if contains r.active_tps tp
      then some (true, get r.tp_to_table tp)
      else if contains r.standby_tps tp
      then some (false, get r.tp_to_table tp)
      else none

  -- `bufsize = buffer_sizes.get(tp)`, and the table's size where there is none yet
  abbrev pub buffer_size : Tables → Recovery V → Source → Tp → ℕ
  buffer_size tables r s tp = elim (get r.buffer_sizes tp) [
    | some n ↦ n
    | none ↦
        if s.is_active
        then tables.recovery_buffer_size s.table
        else tables.standby_buffer_size s.table
  ]

  -- `buf.append(event)`, and the batch where the buffer is full. A size of `None` is compared
  -- only after the event is in the buffer. The exceptions of `on_changelog_event` and of
  -- `apply_changelog_batch`, which the loop logs, are left out.
  unfoldable pub append_event : Recovery V → ℕ → Option ℕ → Event V → Recovery V × Outcome
  append_event r table bufsize e =
      let buf = at r.buffers table ++ e ∷ [] in
      let kept = record r { buffers = put r.buffers table buf } in
      elim bufsize [
        | none ↦ (kept, failed)
        | some n ↦
            if leb n (length buf)
            then (
              record r { buffers = put r.buffers table []; applied = apply_to r.applied table buf },
              taken,
            )
            else (kept, taken)
      ]

  unfoldable pub take_event : Recovery V → Source → Option ℕ → Event V → Recovery V × Outcome
  unfolding append_event
  take_event r s bufsize e =
      if is_unseen (get_offset (offsets_of r s) e.tp) e.offset
      then append_event (with_offset r s e.tp e.offset) s.table bufsize e
      else (r, seen)

  -- The end of a round that raised nothing
  abbrev pub end_round : Recovery V × Outcome → Recovery V × Outcome
  end_round (r, failed) = (r, failed)
  end_round (r, seen) = ((maybe_signal_recovery_end r).0, seen)
  end_round (r, taken) = ((maybe_signal_recovery_end r).0, taken)

  -- A round: the recovery, the loop's variables, and how it ended. For an unknown partition the
  -- variables are those of the round before.
  unfoldable pub slurp :
      Tables → Recovery V → Option Source → Event V → Recovery V × Option Source × Outcome
  unfolding source_of take_event maybe_signal_recovery_end
  slurp tables r last e = elim (source_of r e.tp) [
    | some (is_active, none) ↦ (r, last, failed)
    | some (is_active, some table) ↦
        let s : Source = record { is_active = is_active; table = table } in
        let n = buffer_size tables r s e.tp in
        let r' = record r { buffer_sizes = put r.buffer_sizes e.tp n } in
        let (r'', outcome) = end_round (take_event r' s (some n) e) in (r'', some s, outcome)
    | none ↦ elim last [
      | none ↦ (r, none, failed)
      | some s ↦
          let (r', outcome) = end_round (take_event r s (get r.buffer_sizes e.tp) e) in
          (r', some s, outcome)
    ]
  ]
