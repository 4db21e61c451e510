-- ===== src/Recovery/Journal.antt =====
-- What a table has been given and what waits in its buffer: together, the events that recovery
-- took for the table, in order.
use mathlib.Core.List.{append-nil, append_assoc}
use faust.Common.{
  ℕ, ◌≡◌, refl, sym, ap, ◌∙◌, Bool, true, false, not, ◌&&◌, List, [], ◌∷◌, ◌++◌, Option, none, some,
  arith, nat_eq, nat_beq, nat_beq_iff, length, leb, Bool-cases, inl, inr, ◌⊎◌,
}
use faust.Common.Dict.{get, put}
use faust.Types.{Tp, tp_eq}
use faust.Recovery.{
  Event, Tables, Recovery, at, get_offset, flush_buffers, maybe_signal_recovery_end, need_recovery,
}
use faust.Recovery.Slurp.{
  Source, Outcome, taken, seen, failed, offsets_of, with_offset, is_unseen, source_of, buffer_size,
  append_event, take_event, end_round, slurp,
}
use faust.Recovery.Buffers.{
  IsDistinct, at-put, IsDistinct-put, at-flush_each, at-cleared, IsDistinct-cleared,
}

module _ {V : Type 0} where
  -- What recovery took for a table.
  unfoldable pub journal : Recovery V → ℕ → List (Event V)
  journal r table = at r.applied table ++ at r.buffers table

  abbrev pub one_event : Bool → Event V → List (Event V)
  one_event true e = e ∷ []
  one_event false e = []

  module _ (r : Recovery V) (distinct : IsDistinct r.buffers) where
    journal-flush_buffers : (q : ℕ) → journal (flush_buffers r) q ≡ journal r q
    unfolding journal flush_buffers
    journal-flush_buffers q = ground (
      arith,
      at-flush_each r.applied r.buffers q distinct,
      at-cleared r.buffers q,
      append-nil (at r.applied q ++ at r.buffers q),
    )

    maybe_signal_cases :
        ((maybe_signal_recovery_end r).0 ≡ record (flush_buffers r) { in_recovery = false })
        ⊎ ((maybe_signal_recovery_end r).0 ≡ r)
    unfolding maybe_signal_recovery_end
    maybe_signal_cases = elim (Bool-cases (r.in_recovery && not (need_recovery r))) [
      | inl e ↦ inl (rw e refl)
      | inr e ↦ inr (rw e refl)
    ]

    journal-maybe_signal : (q : ℕ) → journal (maybe_signal_recovery_end r).0 q ≡ journal r q
    unfolding journal
    journal-maybe_signal q = elim maybe_signal_cases [
      | inl e ↦ ap (λ x. journal x q) e ∙ journal-flush_buffers q
      | inr e ↦ ap (λ x. journal x q) e
    ]

    IsDistinct-maybe_signal : IsDistinct (maybe_signal_recovery_end r).0.buffers
    unfolding flush_buffers
    IsDistinct-maybe_signal = elim maybe_signal_cases [
      | inl e ↦ rw e (IsDistinct-cleared r.buffers distinct)
      | inr e ↦ rw e distinct
    ]

    journal-append_event :
        (table : ℕ) (bufsize : Option ℕ) (e : Event V) (q : ℕ)
        → journal (append_event r table bufsize e).0 q
          ≡ journal r q ++ one_event (nat_beq table q) e
    unfolding append_event journal
    journal-append_event table none e q = ground (
      arith,
      at-put r.buffers table q (at r.buffers table ++ e ∷ []),
      append_assoc (at r.applied q) (at r.buffers q) (e ∷ []),
      append-nil (at r.applied q ++ at r.buffers q),
      nat_beq_iff table q,
    )
    journal-append_event table (some n) e q =
        let buf = at r.buffers table ++ e ∷ [] in
        ground (
          arith,
          at-put r.buffers table q buf,
          at-put r.buffers table q [],
          at-put r.applied table q (at r.applied table ++ buf),
          append_assoc (at r.applied q) (at r.buffers q) (e ∷ []),
          append-nil (at r.applied q ++ at r.buffers q),
          append-nil (at r.applied q ++ buf),
          nat_beq_iff table q,
        )

    IsDistinct-append_event :
        (table : ℕ) (bufsize : Option ℕ) (e : Event V)
        → IsDistinct (append_event r table bufsize e).0.buffers
    unfolding append_event
    IsDistinct-append_event table none e =
        IsDistinct-put r.buffers table (at r.buffers table ++ e ∷ []) distinct
    IsDistinct-append_event table (some n) e =
        let buf = at r.buffers table ++ e ∷ [] in
        elim (Bool-cases (leb n (length buf))) [
          | inl full ↦ rw full (IsDistinct-put r.buffers table [] distinct)
          | inr room ↦ rw room (IsDistinct-put r.buffers table buf distinct)
        ]

  -- The offsets play no part in the journal.
  with_offset-buffers :
      (r : Recovery V) (s : Source) (tp : Tp) (offset : ℕ)
      → ((with_offset r s tp offset).buffers ≡ r.buffers)
        × ((with_offset r s tp offset).applied ≡ r.applied)
  with_offset-buffers r s tp offset = elim (Bool-cases s.is_active) [
    | inl e ↦ rw e (refl, refl)
    | inr e ↦ rw e (refl, refl)
  ]

  journal-same :
      (a b : Recovery V)
      → (a.buffers ≡ b.buffers) × (a.applied ≡ b.applied)
      → (k : ℕ) → journal a k ≡ journal b k
  unfolding journal
  journal-same a b h k = rw (h.0, h.1) refl

  take_event_lem :
      (r : Recovery V) (s : Source) (bufsize : Option ℕ) (e : Event V) (q : ℕ)
      → IsDistinct r.buffers
      → (journal (take_event r s bufsize e).0 q
          ≡ journal r q
            ++ one_event
                (is_unseen (get_offset (offsets_of r s) e.tp) e.offset && nat_beq s.table q)
                e)
        × IsDistinct (take_event r s bufsize e).0.buffers
  unfolding take_event
  take_event_lem r s bufsize e q distinct =
      elim (Bool-cases (is_unseen (get_offset (offsets_of r s) e.tp) e.offset)) [
        | inl new ↦
            let r' = with_offset r s e.tp e.offset in
            let same = with_offset-buffers r s e.tp e.offset in
            let distinct' : IsDistinct r'.buffers = rw same.0 distinct in
            rw (new, take_event)
              (
                journal-append_event r' distinct' s.table bufsize e q
                    ∙ ap (λ j. j ++ one_event (nat_beq s.table q) e) (journal-same r' r same q),
                IsDistinct-append_event r' distinct' s.table bufsize e,
              )
        | inr old ↦ rw (old, take_event) (sym (append-nil (journal r q)), distinct)
      ]

  -- Only these two parts of the result of a round matter to the journal.
  end_round_lem :
      (x : Recovery V × Outcome) (q : ℕ)
      → IsDistinct x.0.buffers
      → (journal (end_round x).0 q ≡ journal x.0 q) × IsDistinct (end_round x).0.buffers
  end_round_lem (r, failed) q distinct = (refl, distinct)
  end_round_lem (r, seen) q distinct =
      (journal-maybe_signal r distinct q, IsDistinct-maybe_signal r distinct)
  end_round_lem (r, taken) q distinct =
      (journal-maybe_signal r distinct q, IsDistinct-maybe_signal r distinct)

  round_lem :
      (r : Recovery V) (s : Source) (bufsize : Option ℕ) (e : Event V) (q : ℕ)
      → IsDistinct r.buffers
      → (journal (end_round (take_event r s bufsize e)).0 q
          ≡ journal r q
            ++ one_event
                (is_unseen (get_offset (offsets_of r s) e.tp) e.offset && nat_beq s.table q)
                e)
        × IsDistinct (end_round (take_event r s bufsize e)).0.buffers
  round_lem r s bufsize e q distinct =
      let taken = take_event_lem r s bufsize e q distinct in
      let ended = end_round_lem (take_event r s bufsize e) q taken.1 in (ended.0 ∙ taken.0, ended.1)

  -- A round of slurp on an event of a known partition, whose table is `table`: if the event's
  -- offset is above the partition's seen offset (or there is none), then the events taken for
  -- `table` (those applied, followed by those in its buffer) are the earlier ones followed by this
  -- one; otherwise they are the earlier ones. Those taken for another table stay as they are,
  -- whatever is flushed. No table has two buffers after the round if none had before.
  pub slurp-journal :
      (tables : Tables) (r : Recovery V) (last : Option Source) (e : Event V) (is_active : Bool)
      (table q : ℕ)
      → IsDistinct r.buffers
      → source_of r e.tp ≡ some (is_active, some table)
      → let s : Source = record { is_active = is_active; table = table } in
        (journal (slurp tables r last e).0 q
          ≡ journal r q
            ++ one_event
                (is_unseen (get_offset (offsets_of r s) e.tp) e.offset && nat_beq table q)
                e)
        × IsDistinct (slurp tables r last e).0.buffers
  unfolding slurp journal
  slurp-journal tables r last e is_active table q distinct known =
      let s : Source = record { is_active = is_active; table = table } in
      let n = buffer_size tables r s e.tp in
      rw (known, slurp)
        (round_lem (record r { buffer_sizes = put r.buffer_sizes e.tp n }) s (some n) e q distinct)

  -- A round of slurp on an event of a partition that is neither active nor standby, after a round
  -- that left the table `s.table` in the loop's variables: if the event's offset is above the one
  -- seen for its partition in the offsets of that round (or there is none), the event is added to
  -- the events taken for `s.table`, the table of the event before it. No other table takes it.
  -- This needs that no table has two buffers.
  pub slurp-unknown_partition :
      (tables : Tables) (r : Recovery V) (s : Source) (e : Event V) (q : ℕ)
      → IsDistinct r.buffers
      → source_of r e.tp ≡ none
      → journal (slurp tables r (some s) e).0 q
        ≡ journal r q
          ++ one_event
              (is_unseen (get_offset (offsets_of r s) e.tp) e.offset && nat_beq s.table q)
              e
  unfolding slurp journal
  slurp-unknown_partition tables r s e q distinct unknown =
      rw (unknown, slurp) (round_lem r s (get r.buffer_sizes e.tp) e q distinct).0
