-- ===== src/Stores/Recovered.antt =====
-- What the in-memory store keeps when recovery is completed.
use faust.Common.{
  ℕ, ◌≡◌, refl, ap, ◌∙◌, Bool, false, not, List, [], ◌∷◌, map, Option, none, some, arith,
  if◌then◌else◌, Eq, nat_eq, contains,
}
use faust.Common.Dict.{Dict, get, get-remove, HasDistinctKeys}
use faust.Types.{Tp}
use faust.Stores.{Store, forget, forget_each, inactive_keys, on_recovery_completed}

-- Whether the partition of a key is known, and is none of these
abbrev pub is_inactive : List ℕ → Option ℕ → Bool
is_inactive partitions none = false
is_inactive partitions (some p) = not (contains partitions p)

module _ {K V : Type 0} ⦃e : Eq K⦄ where
  get-forget_each :
      (s : Store K V) (keys : List K) (k : K)
      → get (forget_each s keys).entries k ≡ (if contains keys k then none else get s.entries k)
  get-forget_each s [] k = refl
  get-forget_each s (j ∷ keys) k =
      get-forget_each (forget s j) keys k ∙ ground (arith, get-remove s.entries j k)

module _ {K : Type 0} ⦃e : Eq K⦄ where
  contains-inactive_keys :
      (d : Dict K ℕ) (partitions : List ℕ) (k : K)
      → HasDistinctKeys d
      → contains (inactive_keys d partitions) k ≡ is_inactive partitions (get d k)
  unfolding get
  contains-inactive_keys [] partitions k h = refl
  contains-inactive_keys ((j, p) ∷ d) partitions k h =
      ground (arith, contains-inactive_keys d partitions k, h.0, h.1, e.beq_iff j k, same)
    where
      same : j ≡ k → get d j ≡ get d k
      same q = ap (get d) q

module _ {K V : Type 0} ⦃e : Eq K⦄ where
  -- Where no key is located twice, completing recovery forgets the keys whose known partition is
  -- not one of the active partitions, whatever the topic, and keeps every other key with its
  -- value.
  pub on_recovery_completed_lem :
      (s : Store K V) (active_tps : List Tp) (k : K)
      → HasDistinctKeys s.key_partition
      → get (on_recovery_completed s active_tps).entries k ≡ (
          if is_inactive (map (λ tp. tp.partition) active_tps) (get s.key_partition k)
          then none
          else get s.entries k)
  unfolding on_recovery_completed
  on_recovery_completed_lem s active_tps k h =
      let partitions = map (λ tp. tp.partition) active_tps in
      get-forget_each s (inactive_keys s.key_partition partitions) k
      ∙ rw (contains-inactive_keys s.key_partition partitions k h) refl
