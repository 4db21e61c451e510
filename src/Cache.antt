-- ===== src/Cache.antt =====
-- faust/web/cache/backends/memory.py: `CacheStorage` and `CacheBackend`. Times are whole ticks of a
-- monotonic clock, and the clock's reading is an argument.
pub mod Expiry
use faust.Common.{
  ℕ, ◌-◌, ◌≡◌, refl, Bool, true, false, List, [], ◌∷◌, Option, none, some, if◌then◌else◌, ltb, Eq,
  ◌==◌,
}
use faust.Common.Dict.{Dict, get, put, remove}
use faust.Common.Int.{ℤ, pos, ◌-ℤ◌}

pub record Storage (K V : Type 0) : Type 0 where
  pub values : Dict K V
  pub time_index : Dict K ℕ
  pub expires : Dict K ℕ

-- `now - time_set > expires`, where both are there
abbrev pub is_over : Option ℕ → Option ℕ → ℕ → Bool
is_over none time_set now = false
is_over (some expires) none now = false
is_over (some expires) (some time_set) now = ltb expires (now - time_set)

-- `expires - now - time_set`, where both are there
abbrev pub remaining_of : Option ℕ → Option ℕ → ℕ → Option ℤ
remaining_of none time_set now = none
remaining_of (some expires) none now = none
remaining_of (some expires) (some time_set) now = some (pos expires -ℤ pos now -ℤ pos time_set)

module _ {K V : Type 0} ⦃e : Eq K⦄ where
  unfoldable pub delete : Storage K V → K → Storage K V
  delete s k = record {
    expires = remove s.expires k;
    values = remove s.values k;
    time_index = remove s.time_index k;
  }

  unfoldable pub get_item : Storage K V → ℕ → K → Option V × Storage K V
  unfolding delete
  get_item s now k =
      if is_over (get s.expires k) (get s.time_index k) now
      then (none, delete s k)
      else (get s.values k, s)

  abbrev pub last_set_ttl : Storage K V → K → Option ℕ
  last_set_ttl s k = get s.expires k

  unfoldable pub set_item : Storage K V → K → V → Storage K V
  set_item s k v = record s { values = put s.values k v }

  unfoldable pub setex : Storage K V → ℕ → K → ℕ → V → Storage K V
  unfolding set_item
  setex s now k timeout v =
      set_item (record s { expires = put s.expires k timeout; time_index = put s.time_index k now })
        k v

  unfoldable pub ttl : Storage K V → ℕ → K → Option ℤ
  ttl s now k = remaining_of (get s.expires k) (get s.time_index k) now

  unfoldable pub clear : Storage K V → Storage K V
  clear s = record { values = []; time_index = []; expires = [] }

  -- `CacheBackend._set`
  unfoldable pub backend_set : Storage K V → ℕ → K → V → Option ℕ → Storage K V
  unfolding setex set_item
  backend_set s now k v none = set_item s k v
  backend_set s now k v (some timeout) = setex s now k timeout v
