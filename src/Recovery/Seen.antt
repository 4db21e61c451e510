-- ===== src/Recovery/Seen.antt =====
-- The offset that recovery has seen of a partition, and what a round of the loop makes of it.
use faust.Common.{
  ℕ, ◌≡◌, refl, ap, ◌∙◌, Bool, true, false, not, ◌&&◌, [], ◌∷◌, ◌++◌, Option, some, arith, nat_eq,
  length, leb, Bool-cases, inl, inr, ◌==◌, if◌then◌else◌, contains,
}
use faust.Common.Int.{ℤ, pos}
use faust.Common.Dict.{get, put, get-put}
use faust.Types.{Tp, tp_eq, tp_beq_iff}
use faust.Recovery.{
  Event, Tables, Recovery, at, get_offset, flush_buffers, maybe_signal_recovery_end, need_recovery,
}
use faust.Recovery.Slurp.{
  Source, Outcome, taken, seen, failed, offsets_of, with_offset, is_unseen, source_of, buffer_size,
  append_event, take_event, end_round, slurp,
}

module _ {V : Type 0} where
  -- The offsets seen, after an event
  abbrev pub advance : (Tp → Option ℤ) → Event V → Tp → Option ℤ
  advance offsets e tp =
      if e.tp == tp && is_unseen (offsets e.tp) e.offset then some (pos e.offset) else offsets tp

  -- The offset seen of a partition
  unfoldable pub seen_offset : Recovery V → Tp → Option ℤ
  seen_offset r tp =
      get_offset (if contains r.active_tps tp then r.active_offsets else r.standby_offsets) tp

  -- What no round changes
  abbrev pub HasParts : Recovery V → Recovery V → Type 0
  HasParts a b =
      (a.active_tps ≡ b.active_tps)
      × (a.standby_tps ≡ b.standby_tps)
      × (a.tp_to_table ≡ b.tp_to_table)

  abbrev Same : Recovery V → Recovery V → Type 0
  Same a b =
      HasParts a b × (a.active_offsets ≡ b.active_offsets) × (a.standby_offsets ≡ b.standby_offsets)

  end_round-Same : (x : Recovery V × Outcome) → Same (end_round x).0 x.0
  unfolding maybe_signal_recovery_end flush_buffers
  end_round-Same (r, failed) = ((refl, refl, refl), refl, refl)
  end_round-Same (r, seen) = elim (Bool-cases (r.in_recovery && not (need_recovery r))) [
    | inl y ↦ rw y ((refl, refl, refl), refl, refl)
    | inr n ↦ rw n ((refl, refl, refl), refl, refl)
  ]
  end_round-Same (r, taken) = elim (Bool-cases (r.in_recovery && not (need_recovery r))) [
    | inl y ↦ rw y ((refl, refl, refl), refl, refl)
    | inr n ↦ rw n ((refl, refl, refl), refl, refl)
  ]

  append_event-Same :
      (r : Recovery V) (table n : ℕ) (e : Event V) → Same (append_event r table (some n) e).0 r
  unfolding append_event
  append_event-Same r table n e =
      elim (Bool-cases (leb n (length (at r.buffers table ++ e ∷ [])))) [
        | inl y ↦ rw y ((refl, refl, refl), refl, refl)
        | inr k ↦ rw k ((refl, refl, refl), refl, refl)
      ]

  pub source_of_lem :
      (r : Recovery V) (tp : Tp) (is_active : Bool) (table : ℕ)
      → source_of r tp ≡ some (is_active, some table)
      → (contains r.active_tps tp ≡ is_active) × (get r.tp_to_table tp ≡ some table)
  unfolding source_of
  source_of_lem r tp is_active table h = elim (Bool-cases (contains r.active_tps tp)) [
    | inl y ↦ ground (arith, y, h)
    | inr n ↦ ground (arith, n, h)
  ]

  seen_offset-with_offset :
      (r : Recovery V) (s : Source) (t tp : Tp) (offset : ℕ)
      → contains r.active_tps t ≡ s.is_active
      → seen_offset (with_offset r s t offset) tp
        ≡ (if t == tp then some (pos offset) else seen_offset r tp)
  unfolding seen_offset
  seen_offset-with_offset r s t tp offset h = elim (Bool-cases s.is_active) [
    | inl y ↦ rw y (
        ground (
          arith,
          h,
          y,
          get-put r.active_offsets t tp (some (pos offset)),
          tp_beq_iff t tp,
          same t tp,
        ))
    | inr n ↦ rw n (
        ground (
          arith,
          h,
          n,
          get-put r.standby_offsets t tp (some (pos offset)),
          tp_beq_iff t tp,
          same t tp,
        ))
  ]
    where
      same : (a b : Tp) → a ≡ b → contains r.active_tps a ≡ contains r.active_tps b
      same a b p = ap (contains r.active_tps) p

  seen_offset-Same : (a b : Recovery V) (tp : Tp) → Same a b → seen_offset a tp ≡ seen_offset b tp
  unfolding seen_offset
  seen_offset-Same a b tp h = rw (h.0.0, h.1, h.2) refl

  HasParts-trans : (a b c : Recovery V) → HasParts a b → HasParts b c → HasParts a c
  HasParts-trans a b c h k = (h.0 ∙ k.0, h.1 ∙ k.1, h.2 ∙ k.2)

  with_offset-HasParts :
      (r : Recovery V) (s : Source) (tp : Tp) (offset : ℕ) → HasParts (with_offset r s tp offset) r
  with_offset-HasParts r s tp offset = elim (Bool-cases s.is_active) [
    | inl y ↦ rw y (refl, refl, refl)
    | inr n ↦ rw n (refl, refl, refl)
  ]

  pub here_lem :
      (r : Recovery V) (s : Source) (tp : Tp)
      → contains r.active_tps tp ≡ s.is_active
      → get_offset (offsets_of r s) tp ≡ seen_offset r tp
  unfolding seen_offset
  here_lem r s tp kind = rw kind refl

  take_event-seen_offset :
      (r : Recovery V) (s : Source) (n : ℕ) (e : Event V)
      → contains r.active_tps e.tp ≡ s.is_active
      → HasParts (take_event r s (some n) e).0 r
        × ((tp : Tp) → seen_offset (take_event r s (some n) e).0 tp ≡ advance (seen_offset r) e tp)
  unfolding take_event
  take_event-seen_offset r s n e kind =
      let r' = with_offset r s e.tp e.offset in
      let appended = append_event-Same r' s.table n e in
      let here : get_offset (offsets_of r s) e.tp ≡ seen_offset r e.tp = here_lem r s e.tp kind in
      elim (Bool-cases (is_unseen (seen_offset r e.tp) e.offset)) [
        | inl new ↦
            let new' : is_unseen (get_offset (offsets_of r s) e.tp) e.offset ≡ true =
              ap (λ o. is_unseen o e.offset) here ∙ new in
            rw new' (
              HasParts-trans (append_event r' s.table (some n) e).0 r' r appended.0
                  (with_offset-HasParts r s e.tp e.offset),
              λ tp.
                  seen_offset-Same (append_event r' s.table (some n) e).0 r' tp appended
                  ∙ seen_offset-with_offset r s e.tp tp e.offset kind
                  ∙ ground (arith, new),
            )
        | inr old ↦
            let old' : is_unseen (get_offset (offsets_of r s) e.tp) e.offset ≡ false =
              ap (λ o. is_unseen o e.offset) here ∙ old in
            rw old' ((refl, refl, refl), λ tp. ground (arith, old))
      ]

  pub slurp-seen_offset :
      (tables : Tables) (r : Recovery V) (last : Option Source) (e : Event V) (s : Source)
      → source_of r e.tp ≡ some (s.is_active, some s.table)
      → HasParts (slurp tables r last e).0 r
        × ((tp : Tp) → seen_offset (slurp tables r last e).0 tp ≡ advance (seen_offset r) e tp)
  unfolding slurp seen_offset
  slurp-seen_offset tables r last e s known =
      let n = buffer_size tables r s e.tp in
      let r' = record r { buffer_sizes = put r.buffer_sizes e.tp n } in
      let x = take_event r' s (some n) e in
      let took =
        take_event-seen_offset r' s n e (source_of_lem r e.tp s.is_active s.table known).0 in
      let ended = end_round-Same x in
      rw (known, slurp)
        (
          HasParts-trans (end_round x).0 x.0 r ended.0 took.0,
          λ tp. seen_offset-Same (end_round x).0 x.0 tp ended ∙ took.1 tp,
        )
