-- ===== src/Rocks/Attempts.antt =====
-- How the attempts to open a partition's database end.
use faust.Common.{
  ℕ, zero, suc, ◌+◌, ◌<◌, ◌≤◌, ◌≡◌, ◌⊎◌, inl, inr, refl, Bool, true, false, [], ◌∷◌, ◌++◌, Option,
  none, some, nat_eq, nat_beq, nat_beq_iff, string_eq, contains, Error, io_error, arith, Bool-cases,
}
use mathlib.Core.Path.{subst, sym}
use faust.Types.{tp_eq}
use faust.Rocks.{Store}
use faust.Rocks.Rebalance.{Attempt, opened, locked, failed, stop, try_open, max_retries}

-- How the attempts to open a database end
pub data Outcome : Type 0 where
  opens gives_up fails : Outcome

module _ (answer : ℕ → ℕ → Attempt) (changed : ℕ → ℕ → Bool) where
  -- The attempts before the given one found the database locked, in the same generation.
  abbrev pub StillLocked : ℕ → ℕ → Type 0
  StillLocked p i = (j : ℕ) → j < i → (answer p j ≡ locked) × (changed p j ≡ false)

  -- The attempts at a partition end this way, at the given attempt.
  abbrev pub EndsAt : ℕ → Outcome → ℕ → Type 0
  EndsAt p opens i = answer p i ≡ opened
  EndsAt p gives_up i = (answer p i ≡ locked) × (changed p i ≡ true) × (suc i < max_retries)
  EndsAt p fails i = (answer p i ≡ failed) ⊎ ((answer p i ≡ locked) × (suc i ≡ max_retries))

  abbrev pub Ends : ℕ → Outcome → Type 0
  Ends p outcome = (i : ℕ) × (i < max_retries) × EndsAt p outcome i × StillLocked p i

  module _ {D I : Type 0} where
    abbrev pub after_outcome : Store D I → ℕ → Outcome → Store D I × Option Error
    after_outcome s p opens = (record s { dbs = s.dbs ++ p ∷ [] }, none)
    after_outcome s p gives_up = (s, none)
    after_outcome s p fails = (record s { dbs = [] }, some io_error)

    try_open_end :
        (s : Store D I) (p i left : ℕ) (outcome : Outcome)
        → i + suc left ≡ max_retries
        → contains s.dbs p ≡ false
        → EndsAt p outcome i
        → try_open answer changed s p i (suc left) ≡ after_outcome s p outcome
    unfolding try_open stop
    try_open_end s p i left opens e n h = rw (n, h) refl
    try_open_end s p i left gives_up e n h =
        let more : nat_beq left 0 ≡ false = ground (arith, e, h.2) in rw (n, h.0, h.1, more) refl
    try_open_end s p i left fails e n (inl h) = rw (n, h) refl
    try_open_end s p i left fails e n (inr h) =
        let last : nat_beq left 0 ≡ true = ground (arith, e, h.1) in rw (n, h.0, last) refl

    pub try_open_here :
        (s : Store D I) (p i left : ℕ)
        → contains s.dbs p ≡ true
        → try_open answer changed s p i (suc left) ≡ (s, none)
    unfolding try_open
    try_open_here s p i left y = rw y refl

    pub try_open_lem :
        (s : Store D I) (p i left k : ℕ) (outcome : Outcome)
        → i + left ≡ max_retries
        → i ≤ k
        → k < max_retries
        → contains s.dbs p ≡ false
        → EndsAt p outcome k
        → StillLocked p k
        → try_open answer changed s p i left ≡ after_outcome s p outcome
    unfolding try_open
    try_open_lem s p i zero k outcome e l m n h w = absurd (omega arith)
    try_open_lem s p i (suc left) k outcome e l m n h w = elim (Bool-cases (nat_beq i k)) [
      | inl y ↦
          try_open_end s p i left outcome e n
            (subst (λ j. EndsAt p outcome j) (sym ((nat_beq_iff i k).0 y)) h)
      | inr z ↦
          let before : i < k = ground (arith, l, z) in
          let at_i = w i before in
          let more : nat_beq left 0 ≡ false = ground (arith, e, before, m) in
          rw (n, at_i.0, at_i.1, more)
            (try_open_lem s p (i + 1) left k outcome (omega arith) (omega arith) m n h w)
    ]

abbrev pub is_opens : Outcome → Bool
is_opens opens = true
is_opens gives_up = false
is_opens fails = false

abbrev pub is_fails : Outcome → Bool
is_fails opens = false
is_fails gives_up = false
is_fails fails = true
