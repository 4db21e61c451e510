-- ===== src/Objects/Replay.antt =====
-- What a set table's store holds after a batch of the changelog.
use faust.Common.{
  ℕ, ◌≡◌, refl, ap, ◌∙◌, Bool, true, false, not, ◌&&◌, ◌||◌, List, [], ◌∷◌, Option, none, some,
  if◌then◌else◌, Eq, arith, ◌==◌, nat_eq, nat_beq, contains, include, union, difference, keep,
  Bool-cases, inl, inr,
}
use faust.Common.Dict.{Dict, get, put, get-put, HasDistinctKeys, put-HasDistinctKeys}
use faust.Common.Members.{contains-include, contains-union, contains-keep, contains-difference}
use faust.Types.{Tp, tp_eq, tp_beq_iff}
use faust.Objects.{
  Event, Manager, operation_add, operation_discard, operation_update, later_offset,
  set_persisted_offsets, apply_changelog_event, object_at, with_object, apply_one, apply_each,
  apply_changelog_batch,
}

-- The second where there is one, or the first
abbrev pub or_else : {V : Type 0} → Option V → Option V → Option V
or_else old none = old
or_else old (some v) = some v

get-set_persisted_offsets :
    (persisted offsets : Dict Tp ℕ) (tp : Tp)
    → HasDistinctKeys offsets
    → get (set_persisted_offsets persisted offsets) tp ≡ or_else (get persisted tp) (get offsets tp)
unfolding set_persisted_offsets get
get-set_persisted_offsets persisted [] tp h = refl
get-set_persisted_offsets persisted ((q, offset) ∷ rest) tp h =
    get-set_persisted_offsets (put persisted q offset) rest tp h.1
    ∙ ground (arith, get-put persisted q tp offset, h.0, tp_beq_iff q tp)

-- The highest offset of the partition in the batch, and of the one before
unfoldable pub newest : {A B : Type 0} → Option ℕ → List (Event A B) → Tp → Option ℕ
newest o [] tp = o
newest o (event ∷ batch) tp =
    newest (if event.tp == tp then some (later_offset event.offset o) else o) batch tp

module _ {B X : Type 0} ⦃x : Eq X⦄ (member : B → X) (members : B → List X × List X) where
  -- Whether `x` is a member after an operation, and whether the operation is known
  abbrev pub is_member_after : Bool → ℕ → B → X → Bool
  is_member_after old operation value a =
      if nat_beq operation operation_add
      then old || member value == a
      else if nat_beq operation operation_discard
      then old && not (a == member value)
      else (old || contains (members value).0 a) && not (contains (members value).1 a)

  abbrev pub is_known : ℕ → Bool
  is_known operation =
      nat_beq operation operation_add
      || nat_beq operation operation_discard
      || nat_beq operation operation_update

  apply_changelog_event_lem :
      (xs : List X) (operation : ℕ) (value : B)
      → is_known operation ≡ true
      → (ys : List X) × (apply_changelog_event member members xs operation value ≡ some ys)
        × ((a : X) → contains ys a ≡ is_member_after (contains xs a) operation value a)
  unfolding apply_changelog_event
  apply_changelog_event_lem xs operation value h = elim (Bool-cases (nat_beq operation 1)) [
    | inl added ↦ (
      include xs (member value),
      rw (added, apply_changelog_event) refl,
      λ a. rw added (contains-include xs (member value) a),
    )
    | inr other ↦ elim (Bool-cases (nat_beq operation 2)) [
      | inl discarded ↦ (
        keep (λ a. not (a == member value)) xs,
        rw (other, discarded, apply_changelog_event) refl,
        λ a. rw (other, discarded) (contains-keep (λ b. not (b == member value)) xs a),
      )
      | inr last ↦ (
        difference (union xs (members value).0) (members value).1,
        ground (arith, h, other, last),
        λ a.
            rw (other, last)
              (contains-difference (union xs (members value).0) (members value).1 a
                ∙ ap (λ b. b && not (contains (members value).1 a))
                    (contains-union xs (members value).0 a)),
      )
    ]
  ]

  module _ {K A : Type 0} ⦃k : Eq K⦄ (to_key : A → K) where
    abbrev pub key_is_known : Option (ℕ × A) → Bool
    key_is_known none = false
    key_is_known (some (operation, raw)) = is_known operation

    -- Whether every event of a batch has a key and an operation of the three.
    unfoldable pub all_known : List (Event A B) → Bool
    all_known [] = true
    all_known (event ∷ batch) = let rest = all_known batch in key_is_known event.key && rest

    abbrev pub member_of_one : Bool → Option (ℕ × A) → B → K → X → Bool
    member_of_one old none value key a = old
    member_of_one old (some (operation, raw)) value key a =
        if to_key raw == key then is_member_after old operation value a else old

    -- Whether `a` is in the set of `key` after the batch
    unfoldable pub replay : Bool → List (Event A B) → K → X → Bool
    replay old [] key a = old
    replay old (event ∷ batch) key a =
        replay (member_of_one old event.key event.value key a) batch key a

    apply_one_lem :
        (m : Manager K X) (raw : Option (ℕ × A)) (value : B)
        → key_is_known raw ≡ true
        → (m' : Manager K X) × (apply_one to_key member members m raw value ≡ (m', none))
          × (m'.persisted ≡ m.persisted)
          × ((key : K) (a : X)
              → contains (object_at m' key) a
                ≡ member_of_one (contains (object_at m key) a) raw value key a)
    unfolding apply_one
    apply_one_lem m none value h = absurd (cc)
    apply_one_lem m (some (operation, raw)) value h =
        let (ys, done, same) =
          apply_changelog_event_lem (object_at m (to_key raw)) operation value h in
        (
          with_object m (to_key raw) ys,
          rw done refl,
          refl,
          λ key a. elim (Bool-cases (to_key raw == key)) [
            | inl y ↦
                rw (get-put m.objects (to_key raw) key ys, y)
                  (same a
                    ∙ ap (λ q. is_member_after (contains (object_at m q) a) operation value a)
                        ((k.beq_iff (to_key raw) key).0 y))
            | inr n ↦ rw (get-put m.objects (to_key raw) key ys, n) refl
          ],
        )

    apply_each_lem :
        (m : Manager K X) (offsets : Dict Tp ℕ) (batch : List (Event A B)) (key : K) (a : X)
        (tp : Tp)
        → HasDistinctKeys offsets
        → all_known batch ≡ true
        → ((apply_each to_key member members m offsets batch).1 ≡ none)
          × (contains (object_at (apply_each to_key member members m offsets batch).0 key) a
              ≡ replay (contains (object_at m key) a) batch key a)
          × (get (apply_each to_key member members m offsets batch).0.persisted tp
              ≡ or_else (get m.persisted tp) (newest (get offsets tp) batch tp))
    unfolding apply_each all_known replay newest
    apply_each_lem m offsets [] key a tp d h =
        (refl, refl, get-set_persisted_offsets m.persisted offsets tp d)
    apply_each_lem m offsets (event ∷ batch) key a tp d h =
        let (m', done, kept, same) = apply_one_lem m event.key event.value (ground (arith, h)) in
        let o = later_offset event.offset (get offsets event.tp) in
        let rest =
          apply_each_lem m' (put offsets event.tp o) batch key a tp
            (put-HasDistinctKeys offsets event.tp o d) (ground (arith, h)) in
        let same_offset : event.tp ≡ tp → get offsets event.tp ≡ get offsets tp =
          λ q. ap (get offsets) q in
        let next : get (put offsets event.tp o) tp ≡ (
            if event.tp == tp
            then some (later_offset event.offset (get offsets tp))
            else get offsets tp) =
          get-put offsets event.tp tp o ∙ ground (arith, (tp_beq_iff event.tp tp), same_offset) in
        rw done (
          rest.0,
          rest.1 ∙ ap (λ b. replay b batch key a) (same key a),
          rest.2 ∙ rw (kept, next) refl,
        )

    -- A batch in which every event has a key and a known operation is applied without an
    -- exception. Then a value is in the set of a key exactly when replaying the batch's operations
    -- on that key, in order, says so of it: an addition puts it in, a discard takes it out, an
    -- update adds and then removes. And a partition's persisted offset is the highest of its
    -- events in the batch, or the one it had where the batch has none of them.
    pub apply_changelog_batch-replay :
        (m : Manager K X) (batch : List (Event A B)) (key : K) (a : X) (tp : Tp)
        → all_known batch ≡ true
        → ((apply_changelog_batch to_key member members m batch).1 ≡ none)
          × (contains (object_at (apply_changelog_batch to_key member members m batch).0 key) a
              ≡ replay (contains (object_at m key) a) batch key a)
          × (get (apply_changelog_batch to_key member members m batch).0.persisted tp
              ≡ or_else (get m.persisted tp) (newest none batch tp))
    unfolding apply_changelog_batch get
    apply_changelog_batch-replay m batch key a tp h = apply_each_lem m [] batch key a tp tt h
