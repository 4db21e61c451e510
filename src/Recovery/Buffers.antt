-- ===== src/Recovery/Buffers.antt =====
-- The buffers of the tables in faust/tables/recovery.py, and what a flush does to them.
use mathlib.Core.List.{append-nil}
use faust.Common.{
  ℕ, ◌≡◌, refl, sym, ◌∙◌, List, [], ◌∷◌, ◌++◌, none, arith, if◌then◌else◌, nat_eq, nat_beq,
  nat_beq_iff, Bool-cases, inl, inr,
}
use faust.Common.Dict.{Dict, get, put, get-put}
use faust.Types.{tp_eq}
use faust.Recovery.{Event, at, apply_to, cleared, flush_each}

abbrev pub Events : Type 0 → Type 0
Events V = Dict ℕ (List (Event V))

-- No table has two buffers.
abbrev pub IsDistinct : {V : Type 0} → Dict ℕ (List (Event V)) → Type 0
IsDistinct [] = Unit
IsDistinct ((k, b) ∷ rest) = (get rest k ≡ none) × IsDistinct rest

module _ {V : Type 0} where
  pub at-put :
      (d : Events V) (k q : ℕ) (v : List (Event V))
      → at (put d k v) q ≡ (if nat_beq k q then v else at d q)
  at-put d k q v = ground (arith, get-put d k q v)

  pub IsDistinct-put :
      (d : Events V) (k : ℕ) (v : List (Event V)) → IsDistinct d → IsDistinct (put d k v)
  unfolding put get
  IsDistinct-put [] k v h = (ground arith, tt)
  IsDistinct-put ((j, w) ∷ d) k v h = elim (Bool-cases (nat_beq j k)) [
    | inl e ↦ rw (e, put) h
    | inr e ↦ rw (e, put) (ground (arith, get-put d k j v, h.0), IsDistinct-put d k v h.1)
  ]

  pub at-flush_each :
      (applied buffers : Events V) (q : ℕ)
      → IsDistinct buffers
      → at (flush_each applied buffers) q ≡ at applied q ++ at buffers q
  unfolding flush_each get
  at-flush_each applied [] q h = sym (append-nil (at applied q))
  at-flush_each applied ((k, b) ∷ rest) q h =
      at-flush_each (apply_to applied k b) rest q h.1 ∙ elim (Bool-cases (nat_beq k q)) [
        | inl e ↦ ground (
          arith,
          at-put applied k q (at applied k ++ b),
          h.0,
          append-nil (at applied q ++ b),
          (nat_beq_iff k q).0 e,
        )
        | inr e ↦ ground (arith, at-put applied k q (at applied k ++ b))
      ]

  pub at-cleared : (buffers : Events V) (q : ℕ) → at (cleared buffers) q ≡ []
  unfolding get
  at-cleared [] q = refl
  at-cleared ((k, b) ∷ rest) q = ground (arith, at-cleared rest q)

  pub IsDistinct-cleared : (buffers : Events V) → IsDistinct buffers → IsDistinct (cleared buffers)
  unfolding get
  IsDistinct-cleared [] h = tt
  IsDistinct-cleared ((k, b) ∷ rest) h = (get-cleared rest k h.0, IsDistinct-cleared rest h.1)
    where
      get-cleared : (d : Events V) (j : ℕ) → get d j ≡ none → get (cleared d) j ≡ none
      get-cleared [] j e = e
      get-cleared ((i, w) ∷ d) j e = ground (arith, get-cleared d j)
