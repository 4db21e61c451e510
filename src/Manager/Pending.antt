-- ===== src/Manager/Pending.antt =====
-- What is persisted on a commit, after the offsets that tables sent to their changelogs.
use faust.Common.{
  ℕ, ◌≡◌, refl, sym, ap, ◌∙◌, List, [], ◌∷◌, map, Option, none, some, if◌then◌else◌, ltb, ◌==◌, max,
  Bool-cases, Option-cases, inl, inr, arith,
}
use faust.Common.Dict.{Dict, get, put, get-put}
use faust.Types.{Tp, tp_eq}
use faust.Manager.{TableManager, persist_offset_on_commit, on_commit_tp}

-- The offsets that are sent, in order: the store, the partition and the offset of each
unfoldable pub persist_each : TableManager → List (ℕ × Tp × ℕ) → TableManager
persist_each m [] = m
persist_each m ((store, tp, offset) ∷ sent) =
    persist_each (persist_offset_on_commit m store tp offset) sent

abbrev pub offset_of : Option (ℕ × ℕ) → Option ℕ
offset_of none = none
offset_of (some (store, offset)) = some offset

abbrev pub higher : Option ℕ → ℕ → Option ℕ
higher none offset = some offset
higher (some known) offset = some (max known offset)

-- The highest offset of a partition among those sent and the one known before
abbrev pub highest : Option ℕ → Tp → List (ℕ × Tp × ℕ) → Option ℕ
highest known tp [] = known
highest known tp ((store, t, offset) ∷ sent) =
    highest (if t == tp then higher known offset else known) tp sent

marked_lem :
    (d : Dict Tp (ℕ × ℕ)) (store : ℕ) (t tp : Tp) (offset : ℕ)
    → offset_of (get (put d t (store, offset)) tp)
      ≡ (if t == tp then some offset else offset_of (get d tp))
marked_lem d store t tp offset = elim (Bool-cases (t == tp)) [
  | inl y ↦ rw (get-put d t tp (store, offset), y) refl
  | inr n ↦ rw (get-put d t tp (store, offset), n) refl
]

persist_lem :
    (m : TableManager) (store : ℕ) (t tp : Tp) (offset : ℕ)
    → offset_of (get (persist_offset_on_commit m store t offset).pending_persisted_offsets tp) ≡ (
        if t == tp
        then higher (offset_of (get m.pending_persisted_offsets tp)) offset
        else offset_of (get m.pending_persisted_offsets tp))
unfolding persist_offset_on_commit
persist_lem m store t tp offset =
    let d = m.pending_persisted_offsets in
    let marked = marked_lem d store t tp offset in
    elim (Option-cases (get d t)) [
      | inl e ↦
          rw (e, persist_offset_on_commit)
            (marked ∙ elim (Bool-cases (t == tp)) [
              | inl y ↦
                  let gone : get d tp ≡ none = ap (get d) (sym ((tp_eq.beq_iff t tp).0 y)) ∙ e in
                  rw (y, gone) refl
              | inr n ↦ rw n refl
            ])
      | inr ((s, o), e) ↦
          rw (e, persist_offset_on_commit)
            (elim (Bool-cases (t == tp)) [
              | inl y ↦
                  let found : get d tp ≡ some (s, o) =
                    ap (get d) (sym ((tp_eq.beq_iff t tp).0 y)) ∙ e in
                  elim (Bool-cases (ltb offset o)) [
                    | inl low ↦ rw (y, low, found) (ap (λ (k : ℕ). some k) (ground (arith, low)))
                    | inr high ↦
                        rw (high)
                          (marked ∙ rw (y, found) (ap (λ (k : ℕ). some k) (ground (arith, high))))
                  ]
              | inr n ↦ elim (Bool-cases (ltb offset o)) [
                | inl low ↦ rw (n, low) refl
                | inr high ↦ rw high (marked ∙ rw n refl)
              ]
            ])
    ]

persist_each_lem :
    (m : TableManager) (tp : Tp) (sent : List (ℕ × Tp × ℕ))
    → offset_of (get (persist_each m sent).pending_persisted_offsets tp)
      ≡ highest (offset_of (get m.pending_persisted_offsets tp)) tp sent
unfolding persist_each
persist_each_lem m tp [] = refl
persist_each_lem m tp ((store, t, offset) ∷ sent) =
    persist_each_lem (persist_offset_on_commit m store t offset) tp sent
    ∙ ap (λ k. highest k tp sent) (persist_lem m store t tp offset)

abbrev pub one_or_none : Option ℕ → List ℕ
one_or_none none = []
one_or_none (some o) = o ∷ []

-- After offsets were marked to be persisted, in any order, a commit of a partition persists one
-- offset for it: the highest of those that were marked for it then or before; or no offset, where
-- none was.
pub on_commit_tp-highest :
    (m : TableManager) (tp : Tp) (sent : List (ℕ × Tp × ℕ))
    → map (λ (call : ℕ × Tp × ℕ). call.2) (on_commit_tp (persist_each m sent) tp)
      ≡ one_or_none (highest (offset_of (get m.pending_persisted_offsets tp)) tp sent)
unfolding on_commit_tp
on_commit_tp-highest m tp sent =
    one (get (persist_each m sent).pending_persisted_offsets tp)
    ∙ ap one_or_none (persist_each_lem m tp sent)
  where
    one :
        (known : Option (ℕ × ℕ))
        → map
            (λ (call : ℕ × Tp × ℕ). call.2)
            (elim known [ none ↦ [] | some (store, offset) ↦ (store, tp, offset) ∷ [] ])
          ≡ one_or_none (offset_of known)
    one none = refl
    one (some (store, offset)) = refl
