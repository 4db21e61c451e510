-- ===== src/Barrier.antt =====
-- faust/agents/replies.py: `ReplyPromise` and `BarrierState`. An operation gives the state it
-- leaves and the exception that ended it.
pub mod Delivery
pub mod Completion
pub mod Join
use faust.Common.{
  ℕ, zero, suc, ◌+◌, ◌≡◌, refl, Bool, true, false, List, [], ◌∷◌, ◌++◌, Option, none, some,
  if◌then◌else◌, leb, ltb, length, Error, invalid_state, queue_full, queue_empty, assertion_error,
}
use faust.Common.{String, string_eq, ◌==◌}

pub record Promise (A : Type 0) : Type 0 where
  pub correlation_id : String
  pub outcome : Option A

pub record Barrier (A : Type 0) : Type 0 where
  pub size : ℕ
  pub total : ℕ
  pub fulfilled : ℕ
  -- `_results`, with its sentinels; and whether `set_result` was called
  pub results : List (Option (String × A))
  pub done : Bool

abbrev pub maxsize : ℕ
maxsize = 1000

module _ {A : Type 0} where
  -- `ReplyPromise.fulfill`
  unfoldable pub fulfill_promise : Promise A → String → A → Promise A × Option Error
  fulfill_promise p correlation_id value =
      if correlation_id == p.correlation_id
      then elim p.outcome [
        | none ↦ (record p { outcome = some value }, none)
        | some _ ↦ (p, some invalid_state)
      ]
      else (p, some assertion_error)

  abbrev pub new_barrier : Barrier A
  new_barrier = record { size = 0; total = 0; fulfilled = 0; results = []; done = false }

  abbrev pub and_then :
      Barrier A × Option Error → (Barrier A → Barrier A × Option Error) → Barrier A × Option Error
  and_then (b, none) f = f b
  and_then (b, some e) f = (b, some e)

  unfoldable pub put_nowait : Barrier A → Option (String × A) → Barrier A × Option Error
  put_nowait b x =
      if leb maxsize (length b.results)
      then (b, some queue_full)
      else (record b { results = b.results ++ x ∷ [] }, none)

  unfoldable pub set_result : Barrier A → Barrier A × Option Error
  set_result b = if b.done then (b, some invalid_state) else (record b { done = true }, none)

  -- `set_result(True)`, and the sentinel that wakes `iterate`
  unfoldable pub complete : Barrier A → Barrier A × Option Error
  unfolding set_result put_nowait
  complete b = and_then (set_result b) λ b'. put_nowait b' none

  unfoldable pub add : Barrier A → Barrier A
  add b = record b { size = suc b.size }

  unfoldable pub finalize : Barrier A → Barrier A × Option Error
  unfolding complete
  finalize b =
      let b' = record b { total = b.size } in
      if leb b'.total b'.fulfilled then complete b' else (b', none)

  -- `if self.total: if self.fulfilled >= self.total`
  unfoldable pub count_reply : Barrier A → Barrier A × Option Error
  unfolding complete
  count_reply b =
      let b' = record b { fulfilled = suc b.fulfilled } in
      if ltb 0 b'.total
      then if leb b'.total b'.fulfilled then complete b' else (b', none)
      else (b', none)

  unfoldable pub fulfill : Barrier A → String → A → Barrier A × Option Error
  unfolding put_nowait count_reply
  fulfill b correlation_id value =
      and_then (put_nowait b (some (correlation_id, value))) count_reply

  abbrev pub with_results : Barrier A → List (Option (String × A)) → Barrier A
  with_results b xs = record b { results = xs }

  -- At most `n` items are taken to find one that is no sentinel.
  unfoldable pub take_results :
      ℕ → List (Option (String × A)) → List (Option (String × A)) × Option (String × A)
  take_results zero xs = (xs, none)
  take_results (suc n) [] = ([], none)
  take_results (suc n) (some reply ∷ xs) = (xs, some reply)
  take_results (suc n) (none ∷ xs) = take_results n xs

  -- `none` is the exception `QueueEmpty`.
  unfoldable pub get_nowait : Barrier A → Barrier A × Option (String × A)
  unfolding take_results
  get_nowait b = let r = take_results 10 b.results in (with_results b r.0, r.1)
