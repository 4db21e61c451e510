-- ===== src/Rocks/Turns.antt =====
-- One partition's turn in a rebalance.
use faust.Common.{
  ℕ, ◌≡◌, inl, inr, refl, ap, ◌∙◌, Bool, true, false, not, ◌&&◌, ◌||◌, List, [], ◌∷◌, ◌++◌, Option,
  none, some, String, if◌then◌else◌, ◌==◌, nat_eq, string_eq, contains, any, Error, io_error, arith,
  Bool-cases,
}
use faust.Common.Members.{contains-append, contains-keep}
use faust.Types.{Tp, tp_eq}
use faust.Rocks.{Store}
use faust.Rocks.Rebalance.{Attempt, close_db, revoke_partitions}
use faust.Rocks.Attempts.{Outcome, is_opens, is_fails, opens, gives_up, fails, after_outcome}

pub or_false : (a b : Bool) → (a || b) ≡ false → (a ≡ false) × (b ≡ false)
or_false a b h = ground arith

pub or_assoc : (a b c : Bool) → (a || b || c) ≡ (a || (b || c))
or_assoc a b c = ground arith

pub is_fails_lem : (o : Outcome) → is_fails o ≡ true → o ≡ fails
is_fails_lem opens h = absurd (cc)
is_fails_lem gives_up h = absurd (cc)
is_fails_lem fails h = refl

-- A partition is to be opened that cannot be.
abbrev pub cannot_open : (Tp → Bool) → (ℕ → Outcome) → (ℕ → Bool) → List Tp → Bool
cannot_open mine outcome is_open tps =
    any (λ tp. mine tp && not (is_open tp.partition) && is_fails (outcome tp.partition)) tps

-- The partition is among those to be opened, and its database can be.
abbrev pub opened_by : (Tp → Bool) → (ℕ → Outcome) → List Tp → ℕ → Bool
opened_by mine outcome tps p =
    any (λ tp. mine tp && tp.partition == p && is_opens (outcome tp.partition)) tps

module _ (answer : ℕ → ℕ → Attempt) (changed : ℕ → ℕ → Bool) {D I : Type 0} where
  -- One partition of the loop: it is left, is open already, or comes to its outcome.
  abbrev pub turn : Store D I → ℕ → Bool → Outcome → Store D I × Option Error
  turn s p mine o =
      if mine
      then if contains s.dbs p then (s, none) else after_outcome answer changed s p o
      else (s, none)

  pub turn_fails :
      (s : Store D I) (p : ℕ) (mine : Bool) (o : Outcome)
      → (mine && not (contains s.dbs p) && is_fails o) ≡ true
      → turn s p mine o ≡ (record s { dbs = [] }, some io_error)
  turn_fails s p mine opens h = ground arith
  turn_fails s p mine gives_up h = ground arith
  turn_fails s p mine fails h = ground arith

  pub turn_opens :
      (s : Store D I) (p : ℕ) (mine : Bool) (o : Outcome)
      → (mine && not (contains s.dbs p) && is_fails o) ≡ false
      → (s' : Store D I) × (turn s p mine o ≡ (s', none))
        × (s'.files ≡ s.files)
        × ((q : ℕ) → contains s'.dbs q ≡ (contains s.dbs q || (mine && p == q && is_opens o)))
  turn_opens s p false o h = (s, refl, refl, λ q. ground arith)
  turn_opens s p true opens h = elim (Bool-cases (contains s.dbs p)) [
    | inl y ↦ (s, rw y refl, refl, λ q. ground (arith, y, same q))
    | inr n ↦ (
      record s { dbs = s.dbs ++ p ∷ [] },
      rw n refl,
      refl,
      λ q. ground (arith, contains-append s.dbs (p ∷ []) q),
    )
  ]
    where
      same : (q : ℕ) → p ≡ q → contains s.dbs p ≡ contains s.dbs q
      same q e = ap (contains s.dbs) e
  turn_opens s p true gives_up h = (s, ground arith, refl, λ q. ground arith)
  turn_opens s p true fails h = (s, ground arith, refl, λ q. ground arith)

module _ {D I : Type 0} (my_topics : List String) where
  -- The database was open, and its partition is not revoked.
  abbrev pub kept : Store D I → List Tp → ℕ → Bool
  kept s revoked q =
      contains s.dbs q && not (any (λ tp. contains my_topics tp.topic && tp.partition == q) revoked)

  pub revoke_partitions_lem :
      (s : Store D I) (revoked : List Tp)
      → ((q : ℕ) → contains (revoke_partitions my_topics s revoked).dbs q ≡ kept s revoked q)
        × ((revoke_partitions my_topics s revoked).files ≡ s.files)
  unfolding revoke_partitions
  revoke_partitions_lem s [] = ((λ q. ground arith), refl)
  revoke_partitions_lem s (tp ∷ revoked) = elim (Bool-cases (contains my_topics tp.topic)) [
    | inl y ↦
        let (same, files) = revoke_partitions_lem (close_db s tp.partition) revoked in
        let p = tp.partition in
        rw (y, revoke_partitions)
          ((λ q. same q ∙ ground (arith, contains-keep (λ r. not (r == p)) s.dbs q)), files)
    | inr n ↦ rw (n, revoke_partitions) (revoke_partitions_lem s revoked)
  ]

-- After a rebalance: where a partition could not be opened, all databases are closed and the error
-- is raised; where each could be, those that are open are the given ones. The files stay.
abbrev pub IsRebalanced :
    {D I : Type 0} → Store D I → Bool → (ℕ → Bool) → Store D I × Option Error → Type 0
IsRebalanced s true is_open after =
    (after.1 ≡ some io_error) × (after.0.dbs ≡ []) × (after.0.files ≡ s.files)
IsRebalanced s false is_open after =
    (after.1 ≡ none) × (after.0.files ≡ s.files) × ((q : ℕ) → contains after.0.dbs q ≡ is_open q)
