-- ===== src/Rocks/Opened.antt =====
-- Which databases are open after a rebalance.
use faust.Common.{
  ℕ, ◌≡◌, inl, inr, refl, ap, ◌∙◌, Bool, true, false, not, ◌&&◌, ◌||◌, List, [], ◌∷◌, none, some,
  String, if◌then◌else◌, ◌==◌, nat_eq, string_eq, contains, io_error, arith, Bool-cases,
}
use mathlib.Core.Path.{sym}
use faust.Types.{Tp, tp_eq}
use faust.Rocks.{Store}
use faust.Rocks.Rebalance.{
  Attempt, revoke_partitions, max_retries, try_open_db_for_partition, and_then, is_mine,
  assign_partitions, on_rebalance,
}
use faust.Rocks.Attempts.{
  Outcome, is_opens, is_fails, fails, Ends, after_outcome, try_open_here, try_open_lem,
}
use faust.Rocks.Turns.{
  or_false, or_assoc, is_fails_lem, cannot_open, opened_by, turn, turn_fails, turn_opens, kept,
  revoke_partitions_lem, IsRebalanced,
}

module _ (answer : ℕ → ℕ → Attempt) (changed : ℕ → ℕ → Bool) (outcome : ℕ → Outcome)
    (ends : (p : ℕ) → Ends answer changed p (outcome p)) {D I : Type 0} where
  -- A partition that fails to open is as open as it was.
  abbrev KeepsFailed : (ℕ → Bool) → Store D I → Type 0
  KeepsFailed is_open s = (p : ℕ) → outcome p ≡ fails → contains s.dbs p ≡ is_open p

  try_open_db_for_partition_lem :
      (s : Store D I) (p : ℕ)
      → try_open_db_for_partition answer changed s p
        ≡ (if contains s.dbs p then (s, none) else after_outcome answer changed s p (outcome p))
  unfolding try_open_db_for_partition
  try_open_db_for_partition_lem s p = elim (Bool-cases (contains s.dbs p)) [
    | inl y ↦ try_open_here answer changed s p 0 29 y ∙ rw y refl
    | inr n ↦
        let (i, below, at_end, before) = ends p in
        try_open_lem answer changed s p 0 max_retries i (outcome p) (omega arith) (omega arith)
          below n at_end before
        ∙ rw n refl
  ]

  same_failure :
      (is_open : ℕ → Bool) (s : Store D I) (p : ℕ) (mine : Bool)
      → KeepsFailed is_open s
      → (mine && not (is_open p) && is_fails (outcome p))
        ≡ (mine && not (contains s.dbs p) && is_fails (outcome p))
  same_failure is_open s p mine k = elim (Bool-cases (is_fails (outcome p))) [
    | inl y ↦ rw (y, k p (is_fails_lem (outcome p) y)) refl
    | inr n ↦ rw n (ground arith)
  ]

  next-KeepsFailed :
      (is_open : ℕ → Bool) (s s' : Store D I) (p : ℕ) (mine : Bool)
      → KeepsFailed is_open s
      → ((q : ℕ)
          → contains s'.dbs q ≡ (contains s.dbs q || (mine && p == q && is_opens (outcome p))))
      → KeepsFailed is_open s'
  next-KeepsFailed is_open s s' p mine k after q f =
      let same : p ≡ q → is_opens (outcome p) ≡ is_opens fails =
        λ e. ap (λ r. is_opens (outcome r)) e ∙ ap is_opens f in
      ground (arith, after q, k q f, same)

  module _ (my_topics : List String) (standby_tps : List Tp) (acked : Tp → Bool) where
    turn_of :
        (s : Store D I) (tp : Tp)
        → (if is_mine my_topics standby_tps acked tp
            then try_open_db_for_partition answer changed s tp.partition
            else (s, none))
          ≡ turn answer changed s tp.partition
              (is_mine my_topics standby_tps acked tp)
              (outcome tp.partition)
    turn_of s tp = rw (try_open_db_for_partition_lem s tp.partition) refl

    assign_step :
        (s : Store D I) (tp : Tp) (tps : List Tp)
        → assign_partitions answer changed my_topics standby_tps acked s (tp ∷ tps)
          ≡ and_then
              (turn answer changed s tp.partition
                (is_mine my_topics standby_tps acked tp)
                (outcome tp.partition))
              λ s'. assign_partitions answer changed my_topics standby_tps acked s' tps
    unfolding assign_partitions
    assign_step s tp tps =
        ap
          (λ r.
            and_then r λ s'. assign_partitions answer changed my_topics standby_tps acked s' tps)
          (turn_of s tp)

    assign_fails :
        (is_open : ℕ → Bool) (s : Store D I) (tps : List Tp)
        → KeepsFailed is_open s
        → cannot_open (is_mine my_topics standby_tps acked) outcome is_open tps ≡ true
        → (s' : Store D I) × (assign_partitions answer changed my_topics standby_tps acked s tps
            ≡ (record s' { dbs = [] }, some io_error))
          × (s'.files ≡ s.files)
    unfolding assign_partitions
    assign_fails is_open s [] k h = absurd (cc)
    assign_fails is_open s (tp ∷ tps) k h =
        let p = tp.partition in
        elim (Bool-cases (
          is_mine my_topics standby_tps acked tp
          && not (contains s.dbs p)
          && is_fails (outcome p))) [
            | inl y ↦ (
              s,
              assign_step s tp tps
                  ∙ ap
                      (λ r.
                        and_then r
                          λ s'. assign_partitions answer changed my_topics standby_tps acked s' tps)
                      (turn_fails answer changed s p (is_mine my_topics standby_tps acked tp)
                        (outcome p) y),
              refl,
            )
            | inr n ↦
                let (t, done, same, after) =
                  turn_opens answer changed s p (is_mine my_topics standby_tps acked tp) (outcome p)
                    n in
                let (s', failed_later, files) =
                  assign_fails is_open t tps
                    (next-KeepsFailed is_open s t p (is_mine my_topics standby_tps acked tp) k
                      after)
                    (sym (
                        ap
                          (λ b.
                            b
                            || cannot_open (is_mine my_topics standby_tps acked) outcome is_open
                                tps)
                          (same_failure is_open s p (is_mine my_topics standby_tps acked tp) k ∙ n))
                      ∙ h) in
                (
                  s',
                  assign_step s tp tps
                      ∙ ap
                          (λ r. and_then r λ s'.
                            assign_partitions answer changed my_topics standby_tps acked s' tps)
                          done
                      ∙ failed_later,
                  files ∙ same,
                )
          ]

    assign_opens :
        (is_open : ℕ → Bool) (s : Store D I) (tps : List Tp)
        → KeepsFailed is_open s
        → cannot_open (is_mine my_topics standby_tps acked) outcome is_open tps ≡ false
        → (s' : Store D I) × (assign_partitions answer changed my_topics standby_tps acked s tps
            ≡ (s', none))
          × (s'.files ≡ s.files)
          × ((q : ℕ)
              → contains s'.dbs q ≡ (
                  contains s.dbs q
                  || opened_by (is_mine my_topics standby_tps acked) outcome tps q))
    unfolding assign_partitions
    assign_opens is_open s [] k h = (s, refl, refl, λ q. ground arith)
    assign_opens is_open s (tp ∷ tps) k h =
        let p = tp.partition in
        let n : (is_mine my_topics standby_tps acked tp
              && not (contains s.dbs p)
              && is_fails (outcome p))
            ≡ false =
          sym (same_failure is_open s p (is_mine my_topics standby_tps acked tp) k)
          ∙ (or_false _ _ h).0 in
        let (t, done, same, after) =
          turn_opens answer changed s p (is_mine my_topics standby_tps acked tp) (outcome p) n in
        let (s', later, files, open_later) =
          assign_opens is_open t tps
            (next-KeepsFailed is_open s t p (is_mine my_topics standby_tps acked tp) k after)
            ((or_false _ _ h).1) in
        (
          s',
          assign_step s tp tps
              ∙ ap
                  (λ r.
                    and_then r
                      λ s'. assign_partitions answer changed my_topics standby_tps acked s' tps)
                  done
              ∙ later,
          files ∙ same,
          λ q.
              open_later q
              ∙ ap (λ b. b || opened_by (is_mine my_topics standby_tps acked) outcome tps q)
                  (after q)
              ∙ or_assoc (contains s.dbs q)
                  (is_mine my_topics standby_tps acked tp && p == q && is_opens (outcome p))
                  (opened_by (is_mine my_topics standby_tps acked) outcome tps q),
        )

    -- A rebalance in which the attempts to open the database of each partition end in one of three
    -- ways, within the 30 attempts: it is opened, it is given up because the generation changed,
    -- or it fails, with another error or locked at the last attempt. Where one of the table's
    -- newly assigned partitions fails, is no standby, has its turn and was not still open, all
    -- databases are closed and the error is raised. Otherwise nothing is raised, and the open
    -- databases are those that were open and are not revoked, and those of such partitions that
    -- are opened. No database's contents change.
    pub on_rebalance_lem :
        (s : Store D I) (revoked newly_assigned : List Tp)
        → IsRebalanced s
            (cannot_open
              (is_mine my_topics standby_tps acked)
              outcome
              (kept my_topics s revoked)
              newly_assigned)
            (λ q.
              kept my_topics s revoked q
              || opened_by (is_mine my_topics standby_tps acked) outcome newly_assigned q)
            (on_rebalance answer changed my_topics standby_tps acked s revoked newly_assigned)
    unfolding on_rebalance
    on_rebalance_lem s revoked newly_assigned =
        let mine = is_mine my_topics standby_tps acked in
        let s' = revoke_partitions my_topics s revoked in
        let is_open = kept my_topics s revoked in
        let (same, files) = revoke_partitions_lem my_topics s revoked in
        elim (Bool-cases (cannot_open mine outcome is_open newly_assigned)) [
          | inl y ↦
              let (t, done, after) = assign_fails is_open s' newly_assigned (λ p f. same p) y in
              rw (y, done) (refl, refl, after ∙ files)
          | inr n ↦
              let (t, done, after, now) =
                assign_opens is_open s' newly_assigned (λ p f. same p) n in
              rw (n, done)
                (
                  refl,
                  after ∙ files,
                  λ q. now q ∙ ap (λ b. b || opened_by mine outcome newly_assigned q) (same q),
                )
        ]
