-- ===== src/Recovery/Start.antt =====
-- Where recovery begins to read, in faust/tables/recovery.py: `_build_highwaters`,
-- `_build_offsets` and `_seek_offsets`. What the consumer answers is a dictionary.
use faust.Common.{
  ℕ, zero, suc, ◌≡◌, refl, sym, ap, ◌∙◌, Bool, true, false, ◌&&◌, List, [], ◌∷◌, map, Option, none,
  some, leb, ◌==◌, contains, Bool-cases, inl, inr, arith,
}
use faust.Common.Members.{IsSetList}
use faust.Common.Int.{ℤ, pos, negsuc, ◌-ℤ◌, ◌≤ℤ◌, max_ℤ}
use faust.Common.Dict.{Dict, get, put, get-put}
use faust.Types.{Tp, tp_eq}
use faust.Recovery.{get_offset, count_at}
use faust.Recovery.Slurp.{is_unseen}

-- The highwater of a partition is the offset after its last event; -1 where it is not known.
abbrev pub before : ℕ → ℤ
before n = pos n -ℤ pos 1

abbrev pub highwater_of : Option ℕ → ℤ
highwater_of none = negsuc 0
highwater_of (some value) = before value

unfoldable pub build_highwaters : Dict Tp (Option ℕ) → Dict Tp ℤ
build_highwaters highwaters = map (λ e. (e.0, highwater_of e.1)) highwaters

abbrev pub option_before : Option ℕ → Option ℤ
option_before none = none
option_before (some offset) = some (before offset)

-- `earliest.get(tp, None)`
abbrev pub earliest_of : Dict Tp (Option ℕ) → Tp → Option ℤ
earliest_of earliest tp = elim (get earliest tp) [ none ↦ none | some o ↦ option_before o ]

abbrev pub start_offset : Option ℤ → Option ℤ → ℤ
start_offset none none = negsuc 0
start_offset none (some new) = new
start_offset (some last) none = last
start_offset (some last) (some new) = max_ℤ last new

unfoldable pub build_offsets :
    Dict Tp (Option ℕ) → List Tp → Dict Tp (Option ℤ) → Dict Tp (Option ℤ)
unfolding ◌-ℤ◌
build_offsets earliest [] destination = destination
build_offsets earliest (tp ∷ tps) destination =
    build_offsets earliest tps
      (put destination tp (some (start_offset (count_at destination tp) (earliest_of earliest tp))))

abbrev pub seek_of : Option ℤ → Option ℤ
seek_of none = none
seek_of (some (pos n)) = some (pos n)
seek_of (some (negsuc zero)) = some (pos 0)
seek_of (some (negsuc (suc n))) = some (negsuc (suc n))

-- The positions that the consumer is asked to seek to
unfoldable pub seek_offsets : Dict Tp (Option ℤ) → List Tp → Dict Tp (Option ℤ)
seek_offsets offsets [] = []
seek_offsets offsets (tp ∷ tps) = (tp, seek_of (count_at offsets tp)) ∷ seek_offsets offsets tps

-- The broker still has an event at this offset, as far as it says.
abbrev pub is_available : Option (Option ℕ) → ℕ → Bool
is_available none offset = true
is_available (some none) offset = true
is_available (some (some earliest)) offset = leb earliest offset

start_offset_lem :
    (last : Option ℤ) (answer : Option (Option ℕ)) (o : ℕ)
    → is_unseen
        (some (start_offset last (elim answer [ none ↦ none | some e ↦ option_before e ])))
        o
      ≡ (is_unseen last o && is_available answer o)
unfolding ◌-ℤ◌
start_offset_lem none none o = ground arith
start_offset_lem none (some none) o = ground arith
start_offset_lem none (some (some e)) o = ground arith
start_offset_lem (some last) none o = ground arith
start_offset_lem (some last) (some none) o = ground arith
start_offset_lem (some last) (some (some e)) o = ground arith

build_offsets_other :
    (earliest : Dict Tp (Option ℕ)) (tps : List Tp) (destination : Dict Tp (Option ℤ)) (tp : Tp)
    → contains tps tp ≡ false
    → get (build_offsets earliest tps destination) tp ≡ get destination tp
unfolding build_offsets
build_offsets_other earliest [] destination tp h = refl
build_offsets_other earliest (t ∷ tps) destination tp h =
    let v = some (start_offset (count_at destination t) (earliest_of earliest t)) in
    let away : (t == tp) ≡ false = ground (arith, h) in
    build_offsets_other earliest tps (put destination t v) tp (ground (arith, h))
    ∙ get-put destination t tp v
    ∙ rw away refl

get-build_offsets :
    (earliest : Dict Tp (Option ℕ)) (tps : List Tp) (destination : Dict Tp (Option ℤ)) (tp : Tp)
    → IsSetList tps
    → contains tps tp ≡ true
    → get (build_offsets earliest tps destination) tp
      ≡ some (some (start_offset (count_at destination tp) (earliest_of earliest tp)))
unfolding build_offsets
get-build_offsets earliest [] destination tp d h = absurd (cc)
get-build_offsets earliest (t ∷ tps) destination tp d h =
    let v = some (start_offset (count_at destination t) (earliest_of earliest t)) in
    elim (Bool-cases (t == tp)) [
      | inl y ↦
          let same : t ≡ tp = (tp_eq.beq_iff t tp).0 y in
          let gone : contains tps tp ≡ false = ap (contains tps) (sym same) ∙ d.0 in
          build_offsets_other earliest tps (put destination t v) tp gone
          ∙ get-put destination t tp v
          ∙ rw y (
              ap (λ u. some (some (start_offset (count_at destination u) (earliest_of earliest u))))
                same)
      | inr n ↦
          let kept : get (put destination t v) tp ≡ get destination tp =
            get-put destination t tp v ∙ rw n refl in
          get-build_offsets earliest tps (put destination t v) tp d.1 (ground (arith, n, h))
          ∙ ap
              (λ o. some (
                some (
                  start_offset (elim o [ none ↦ some (pos 0) | some p ↦ p ])
                    (earliest_of earliest tp))))
              kept
    ]

get-seek_offsets :
    (offsets : Dict Tp (Option ℤ)) (tps : List Tp) (tp : Tp)
    → contains tps tp ≡ true
    → get (seek_offsets offsets tps) tp ≡ some (seek_of (count_at offsets tp))
unfolding seek_offsets get
get-seek_offsets offsets [] tp h = absurd (cc)
get-seek_offsets offsets (t ∷ tps) tp h = elim (Bool-cases (t == tp)) [
  | inl y ↦ rw y (ap (λ u. some (seek_of (count_at offsets u))) ((tp_eq.beq_iff t tp).0 y))
  | inr n ↦ rw n (get-seek_offsets offsets tps tp (ground (arith, n, h)))
]

seek_of_lem :
    (s : ℤ) (o : ℕ)
    → is_unseen (some s) o ≡ true
    → (t : ℤ) × (seek_of (some s) ≡ some t) × (t ≤ℤ pos o)
seek_of_lem (pos n) o h = (pos n, refl, ground (arith, h))
seek_of_lem (negsuc zero) o h = (pos 0, refl, omega arith)
seek_of_lem (negsuc (suc n)) o h = (negsuc (suc n), refl, omega arith)

-- Where no partition is there twice, and the offset that recovery has for one of them is `last`,
-- which may be none: with the offsets that recovery starts with, it takes the event at an offset
-- of the partition exactly when the offset is above `last` (or there is none) and the broker's
-- earliest offset is not above it (or is not known); and the position it seeks to is not after
-- such an event.
pub build_offsets_lem :
    (earliest : Dict Tp (Option ℕ)) (tps : List Tp) (destination : Dict Tp (Option ℤ)) (tp : Tp)
    (last : Option ℤ) (o : ℕ)
    → IsSetList tps
    → contains tps tp ≡ true
    → get destination tp ≡ some last
    → (is_unseen (get_offset (build_offsets earliest tps destination) tp) o
        ≡ (is_unseen last o && is_available (get earliest tp) o))
      × (is_unseen last o ≡ true
          → is_available (get earliest tp) o ≡ true
          → (s : ℤ) × (get (seek_offsets (build_offsets earliest tps destination) tps) tp
              ≡ some (some s))
            × (s ≤ℤ pos o))
build_offsets_lem earliest tps destination tp last o d h has =
    let start = start_offset last (earliest_of earliest tp) in
    let built : get (build_offsets earliest tps destination) tp ≡ some (some start) =
      get-build_offsets earliest tps destination tp d h
      ∙ ap
          (λ x. some (
            some (
              start_offset (elim x [ none ↦ some (pos 0) | some p ↦ p ])
                (earliest_of earliest tp))))
          has in
    let exact = start_offset_lem last (get earliest tp) o in
    (
      ap (λ x. is_unseen (elim x [ none ↦ none | some p ↦ p ]) o) built ∙ exact,
      λ new there.
          let t = seek_of_lem start o (exact ∙ ground (arith, new, there)) in
          (
            t.0,
            get-seek_offsets (build_offsets earliest tps destination) tps tp h
                ∙ ap (λ x. some (seek_of (elim x [ none ↦ some (pos 0) | some p ↦ p ]))) built
                ∙ ap some t.1,
            t.2,
          ),
    )
