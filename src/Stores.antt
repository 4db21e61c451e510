-- ===== src/Stores.antt =====
-- faust/stores/memory.py: the in-memory table store.
pub mod Changes
pub mod Recovered
use faust.Common.{
  ℕ, ◌≡◌, refl, Bool, true, false, not, List, [], ◌∷◌, map, Option, none, some, if◌then◌else◌, ◌==◌,
  Eq, nat_eq, contains, length, Result, ok, err, Error, key_error, ◌>>=◌,
}
use faust.Common.Dict.{Dict, get, put, remove}
use faust.Types.{Tp}

-- A changelog event with raw keys of `A` and raw values of `B`.
pub record Change (A B : Type 0) : Type 0 where
  pub key : A
  pub value : B
  pub message_is_none : Bool
  pub partition : ℕ

pub record Store (K V : Type 0) : Type 0 where
  pub entries : Dict K V
  pub key_partition : Dict K ℕ

-- `to_delete.add(key)`
module _ {K : Type 0} ⦃e : Eq K⦄ where
  abbrev pub mark : List K → K → List K
  mark keys k = if contains keys k then keys else k ∷ keys

-- The keys of `_key_partition` whose partition is not an active one
abbrev pub inactive_keys : {K : Type 0} → Dict K ℕ → List ℕ → List K
inactive_keys [] partitions = []
inactive_keys ((k, p) ∷ rest) partitions =
    let others = inactive_keys rest partitions in
    if contains partitions p then others else k ∷ others

module _ {K V : Type 0} ⦃e : Eq K⦄ where
  abbrev pub forget : Store K V → K → Store K V
  forget s k = record { entries = remove s.entries k; key_partition = remove s.key_partition k }

  abbrev pub forget_each : Store K V → List K → Store K V
  forget_each s [] = s
  forget_each s (k ∷ keys) = forget_each (forget s k) keys

  unfoldable pub on_recovery_completed : Store K V → List Tp → Store K V
  on_recovery_completed s active_tps =
      forget_each s (inactive_keys s.key_partition (map (λ tp. tp.partition) active_tps))

  -- `if not self.data[key]`
  abbrev pub delete_if : (V → Bool) → Store K V → K → Option V → Result (Store K V)
  delete_if is_true s k none = err key_error
  delete_if is_true s k (some v) = ok (if is_true v then s else forget s k)

  unfoldable pub delete_each : (V → Bool) → Store K V → List K → Result (Store K V)
  delete_each is_true s [] = ok s
  delete_each is_true s (k ∷ keys) =
      delete_if is_true s k (get s.entries k) >>= λ s'. delete_each is_true s' keys

  module _ {A B : Type 0} (to_key : A → K) (to_value : B → V) where
    -- `data.update` drives the iterator: an event is marked, located and stored in turn.
    unfoldable pub update : Store K V → List K → List (Change A B) → Store K V × List K
    update s to_delete [] = (s, to_delete)
    update s to_delete (c ∷ batch) =
        update
          (record {
            entries = put s.entries (to_key c.key) (to_value c.value);
            key_partition = put s.key_partition (to_key c.key) c.partition;
          })
          (if c.message_is_none then mark to_delete (to_key c.key) else to_delete) batch

    unfoldable pub apply_changelog_batch :
        (V → Bool) → Store K V → List (Change A B) → Result (Store K V)
    unfolding update delete_each
    apply_changelog_batch is_true s batch = let u = update s [] batch in delete_each is_true u.0 u.1
