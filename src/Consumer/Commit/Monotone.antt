-- ===== src/Consumer/Commit/Monotone.antt =====
-- A commit never moves a partition's committed offset back.
use mathlib.Core.Path.{subst}
use faust.Common.{
  ℕ, ◌≤◌, ◌≡◌, refl, sym, ap, ◌∙◌, Bool, true, false, List, [], ◌∷◌, Option, none, some, arith,
  ◌==◌, contains, Bool-cases, inl, inr, All,
}
use faust.Common.Dict.{Dict, put}
use faust.Types.{Tp, tp_eq, tp_beq_iff}
use faust.Consumer.{Consumer, get_default, get_default-put, update}
use faust.Consumer.Intervals.{IntervalTree}
use faust.Consumer.Commit.{
  Topics, should_commit, record_offset, new_offset_of, filter_tps_with_pending_acks,
  filter_committable_offsets, committable, committed_entries, commit_committable, commit_offsets,
  commit_collected, commit,
}

-- The second is no step back from the first.
abbrev pub AtLeast : Option ℕ → Option ℕ → Type 0
AtLeast none w = Unit
AtLeast (some v) none = ⊥
AtLeast (some v) (some w) = v ≤ w

AtLeast-refl : (v : Option ℕ) → AtLeast v v
AtLeast-refl none = tt
AtLeast-refl (some v) = omega arith

should_commit-AtLeast : (v : Option ℕ) (w : ℕ) → should_commit v w ≡ true → AtLeast v (some w)
unfolding should_commit
should_commit-AtLeast none w h = tt
should_commit-AtLeast (some v) w h = ground arith

-- A fact about the value of a key survives an update whose entries all have it.
get_default-update :
    (P : Tp → Option ℕ → Type 0) (tp : Tp) (d : Dict Tp (Option ℕ)) (es : Dict Tp ℕ)
    → P tp (get_default d tp none)
    → All (λ e. P e.0 (some e.1)) es
    → P tp (get_default (update d (committed_entries es)) tp none)
get_default-update P tp d [] h a = h
get_default-update P tp d ((k, v) ∷ es) h a =
    get_default-update P tp (put d k (some v)) es
      (elim (Bool-cases (k == tp)) [
        | inl e ↦
            let same : get_default (put d k (some v)) tp none ≡ some v =
              get_default-put d k tp (some v) none ∙ (rw e refl) in
            subst (P tp) (sym same) (subst (λ j. P j (some v)) ((tp_beq_iff k tp).0 e) a.0)
        | inr e ↦
            let same : get_default (put d k (some v)) tp none ≡ get_default d tp none =
              get_default-put d k tp (some v) none ∙ (rw e refl) in
            subst (P tp) (sym same) h
      ])
      a.1

All-put :
    (P : Tp → ℕ → Type 0) (d : Dict Tp ℕ) (k : Tp) (v : ℕ)
    → All (λ e. P e.0 e.1) d
    → P k v
    → All (λ e. P e.0 e.1) (put d k v)
unfolding put
All-put P [] k v h p = (p, tt)
All-put P ((j, w) ∷ d) k v h p = elim (Bool-cases (j == k)) [
  | inl e ↦ rw (e, put) (subst (λ i. P i v) (sym ((tp_beq_iff j k).0 e)) p, h.1)
  | inr e ↦ rw (e, put) (h.0, All-put P d k v h.1 p)
]

All-committable :
    (P : Tp → ℕ → Type 0) (assignment : List Tp) (d : Dict Tp ℕ)
    → All (λ e. P e.0 e.1) d
    → All (λ e. P e.0 e.1 × (contains assignment e.0 ≡ true)) (committable assignment d)
unfolding committable
All-committable P assignment [] h = tt
All-committable P assignment ((tp, o) ∷ d) h = elim (Bool-cases (contains assignment tp)) [
  | inl e ↦ rw (e, committable) ((h.0, e), All-committable P assignment d h.1)
  | inr e ↦ rw (e, committable) (All-committable P assignment d h.1)
]

All-record_offset :
    (f : Tp → Option ℕ) (v o : Option ℕ) (tp : Tp) (offsets : Dict Tp ℕ)
    → v ≡ f tp
    → All (λ e. AtLeast (f e.0) (some e.1)) offsets
    → All (λ e. AtLeast (f e.0) (some e.1)) (record_offset v o tp offsets)
All-record_offset f v none tp offsets same h = h
All-record_offset f v (some w) tp offsets same h = elim (Bool-cases (should_commit v w)) [
  | inl e ↦
      rw (e, record_offset)
        (All-put (λ j x. AtLeast (f j) (some x)) offsets tp w h
          (subst (λ u. AtLeast u (some w)) same (should_commit-AtLeast v w e)))
  | inr e ↦ rw (e, record_offset) h
]

module _ (it : IntervalTree) where
  abbrev pub committed : Consumer it → Tp → Option ℕ
  committed c tp = get_default c.committed_offset tp none

  -- Collecting the offsets changes no committed offset and collects only steps forward.
  filter_committable_offsets_lem :
      (f : Tp → Option ℕ) (c : Consumer it) (tps : List Tp) (offsets : Dict Tp ℕ)
      → ((tp : Tp) → get_default c.committed_offset tp none ≡ f tp)
      → All (λ e. AtLeast (f e.0) (some e.1)) offsets
      → ((filter_committable_offsets it c tps offsets).0.committed_offset ≡ c.committed_offset)
        × All (λ e. AtLeast (f e.0) (some e.1)) (filter_committable_offsets it c tps offsets).1
  unfolding filter_committable_offsets new_offset_of
  filter_committable_offsets_lem f c [] offsets same h = (refl, h)
  filter_committable_offsets_lem f c (tp ∷ tps) offsets same h =
      let (c', o) = new_offset_of it c tp in
      filter_committable_offsets_lem f c' tps
        (record_offset (get_default c.committed_offset tp none) o tp offsets) same
        (All-record_offset f (get_default c.committed_offset tp none) o tp offsets (same tp) h)

  -- What a commit may do to the committed offset of a partition.
  abbrev Kept : List Tp → (Tp → Option ℕ) → Tp → Option ℕ → Type 0
  Kept assignment f tp v = AtLeast (f tp) v × (contains assignment tp ≡ false → v ≡ f tp)

  commit_offsets_lem :
      (broker : Dict Tp ℕ → Bool) (f : Tp → Option ℕ) (c : Consumer it) (assignment : List Tp)
      (offsets : Dict Tp ℕ) (tp : Tp)
      → ((j : Tp) → committed c j ≡ f j)
      → All (λ e. AtLeast (f e.0) (some e.1)) offsets
      → Kept assignment f tp (committed (commit_offsets it broker c assignment offsets).0 tp)
  unfolding commit_offsets commit_committable
  commit_offsets_lem broker f c assignment offsets tp same h =
      go (committable assignment offsets)
        (All-committable (λ j o. AtLeast (f j) (some o)) assignment offsets h)
    where
      start : Kept assignment f tp (committed c tp)
      start = (subst (AtLeast (f tp)) (sym (same tp)) (AtLeast-refl (f tp)), λ _. same tp)

      widen :
          (es : Dict Tp ℕ)
          → All (λ e. AtLeast (f e.0) (some e.1) × (contains assignment e.0 ≡ true)) es
          → All (λ e. Kept assignment f e.0 (some e.1)) es
      widen [] a = tt
      widen (e ∷ es) a = ((a.0.0, λ out. cc (a.0.1, out)), widen es a.1)

      go :
          (es : Dict Tp ℕ)
          → All (λ e. AtLeast (f e.0) (some e.1) × (contains assignment e.0 ≡ true)) es
          → Kept assignment f tp (committed (commit_committable it broker c es).0 tp)
      go [] a = start
      go (e ∷ es) a =
          get_default-update (Kept assignment f) tp c.committed_offset (e ∷ es) start
            (widen (e ∷ es) a)

  commit_collected_lem :
      (publish broker : Dict Tp ℕ → Bool) (f : Tp → Option ℕ) (c : Consumer it)
      (assignment : List Tp) (offsets : Dict Tp ℕ) (tp : Tp)
      → ((j : Tp) → committed c j ≡ f j)
      → All (λ e. AtLeast (f e.0) (some e.1)) offsets
      → Kept assignment f tp
          (committed (commit_collected it publish broker c assignment offsets).0 tp)
  unfolding commit_collected
  commit_collected_lem publish broker f c assignment [] tp same h =
      (subst (AtLeast (f tp)) (sym (same tp)) (AtLeast-refl (f tp)), λ _. same tp)
  commit_collected_lem publish broker f c assignment (e ∷ es) tp same h =
      elim (Bool-cases (publish (e ∷ es))) [
        | inl sent ↦ rw sent (commit_offsets_lem broker f c assignment (e ∷ es) tp same h)
        | inr failed ↦
            rw failed (subst (AtLeast (f tp)) (sym (same tp)) (AtLeast-refl (f tp)), λ _. same tp)
      ]

  commit_lem :
      (publish broker : Dict Tp ℕ → Bool) (client_only under_way : Bool) (c : Consumer it)
      (assignment : List Tp) (topics : Option Topics) (tp : Tp)
      → AtLeast
          (committed c tp)
          (committed (commit it publish broker client_only under_way c assignment topics).0 tp)
        × (contains assignment tp ≡ false
            → committed (commit it publish broker client_only under_way c assignment topics).0 tp
              ≡ committed c tp)
  unfolding commit
  commit_lem publish broker true under_way c assignment topics tp =
      (AtLeast-refl (committed c tp), λ _. refl)
  commit_lem publish broker false true c assignment topics tp =
      (AtLeast-refl (committed c tp), λ _. refl)
  commit_lem publish broker false false c assignment topics tp =
      let tps = filter_tps_with_pending_acks it c topics in
      let (same, steps) = filter_committable_offsets_lem (committed c) c tps [] (λ j. refl) tt in
      let (c', offsets) = filter_committable_offsets it c tps [] in
      commit_collected_lem publish broker (committed c) c' assignment offsets tp
        (λ j. ap (λ d. get_default d j none) same) steps

  -- However the broker and the producer answer, a commit of all or some topics never moves a
  -- partition's committed offset back or forgets it.
  pub commit-monotone :
      (publish broker : Dict Tp ℕ → Bool) (client_only under_way : Bool) (c : Consumer it)
      (assignment : List Tp) (topics : Option Topics) (tp : Tp)
      → AtLeast
          (committed c tp)
          (committed (commit it publish broker client_only under_way c assignment topics).0 tp)
  commit-monotone publish broker client_only under_way c assignment topics tp =
      (commit_lem publish broker client_only under_way c assignment topics tp).0

  -- However the broker and the producer answer, a commit of all or some topics leaves the
  -- committed offset of a partition that is not assigned.
  pub commit-revoked :
      (publish broker : Dict Tp ℕ → Bool) (client_only under_way : Bool) (c : Consumer it)
      (assignment : List Tp) (topics : Option Topics) (tp : Tp)
      → contains assignment tp ≡ false
      → committed (commit it publish broker client_only under_way c assignment topics).0 tp
        ≡ committed c tp
  commit-revoked publish broker client_only under_way c assignment topics tp gone =
      (commit_lem publish broker client_only under_way c assignment topics tp).1 gone
