-- ===== src/Cache/Expiry.antt =====
-- When the in-memory cache forgets a key.
use faust.Common.{
  ℕ, ◌+◌, ◌-◌, ◌≡◌, Bool, Option, none, some, arith, if◌then◌else◌, ltb, Eq, ◌==◌, nat_eq,
}
use faust.Common.Dict.{get, get-put, get-remove}
use faust.Common.Int.{pos, ◌-ℤ◌}
use faust.Cache.{Storage, is_over, delete, get_item, set_item, setex, ttl, backend_set}

-- When a value that is set at `now` with this timeout, or with none on top of an older one, is
-- too old at `later`
abbrev pub over_after : Option ℕ → Bool → ℕ → ℕ → Bool
over_after none before now later = before
over_after (some timeout) before now later = ltb timeout (later - now)

module _ {K V : Type 0} ⦃e : Eq K⦄ where
  -- After `_set` of a key, a `_get` of that key gives the value, unless more time than the timeout
  -- has passed since; with no timeout, the one that the key had before still counts, from the time
  -- it was set. A `_get` of another key gives what it gave before.
  pub get_item-backend_set :
      (s : Storage K V) (now later : ℕ) (k j : K) (v : V) (timeout : Option ℕ)
      → (get_item (backend_set s now k v timeout) later j).0 ≡ (
          if k == j
          then (if over_after timeout
                (is_over (get s.expires k) (get s.time_index k) later)
                now
                later
              then none
              else some v)
          else (get_item s later j).0)
  unfolding backend_set get_item setex set_item
  get_item-backend_set s now later k j v none =
      ground (arith, get-put s.values k j v, e.beq_iff k j)
  get_item-backend_set s now later k j v (some timeout) = ground (
    arith,
    get-put s.values k j v,
    get-put s.expires k j timeout,
    get-put s.time_index k j now,
    e.beq_iff k j,
  )

  -- A key that a `get` finds too old is found by no later `get`; a `get` changes nothing for
  -- another key, nor for a key that is not too old.
  pub get_item-twice :
      (s : Storage K V) (now later : ℕ) (k j : K)
      → (get_item (get_item s now k).1 later j).0 ≡ (
          if k == j
          then (if is_over (get s.expires k) (get s.time_index k) now
              then none
              else (get_item s later j).0)
          else (get_item s later j).0)
  unfolding get_item delete
  get_item-twice s now later k j = ground (
    arith,
    get-remove s.values k j,
    get-remove s.expires k j,
    get-remove s.time_index k j,
    e.beq_iff k j,
  )

  -- `ttl` of a key set at `now` with a timeout, read at `later`: twice `now` below the time that
  -- is left, `timeout - (later - now)`.
  pub ttl-setex :
      (s : Storage K V) (now later : ℕ) (k : K) (timeout : ℕ) (v : V)
      → ttl (setex s now k timeout v) later k
        ≡ some (pos timeout -ℤ (pos later -ℤ pos now) -ℤ pos (now + now))
  unfolding ttl setex set_item ◌-ℤ◌
  ttl-setex s now later k timeout v =
      ground (arith, get-put s.expires k k timeout, get-put s.time_index k k now, e.beq_iff k k)
