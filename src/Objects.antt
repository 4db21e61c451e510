-- ===== src/Objects.antt =====
-- faust/tables/objects.py and the sets of faust/tables/sets.py: the changelogged sets of a set
-- table and the store that holds them.
pub mod Replay
use faust.Common.{
  ℕ, ◌≡◌, refl, Bool, true, false, not, List, [], ◌∷◌, Option, none, some, if◌then◌else◌, max, Eq,
  ◌==◌, nat_eq, nat_beq, contains, include, union, difference, keep, Error, runtime_error,
  not_implemented, key_error,
}
use faust.Common.Dict.{Dict, get, put}
use faust.Types.{Tp, tp_eq}

abbrev pub operation_add : ℕ
operation_add = 1

abbrev pub operation_discard : ℕ
operation_discard = 2

abbrev pub operation_update : ℕ
operation_update = 15

-- A changelog event, whose key is an operation and a raw key. Its value is the one `to_value` gives.
pub record Event (A B : Type 0) : Type 0 where
  pub tp : Tp
  pub offset : ℕ
  pub key : Option (ℕ × A)
  pub value : B

pub record Manager (K X : Type 0) : Type 0 where
  pub objects : Dict K (List X)
  pub dirty : List K
  -- The underlying storage: its values, and the offsets it was told to persist
  pub storage : Dict K (List X)
  pub persisted : Dict Tp ℕ

-- `offset if tp not in tp_offsets else max(offset, tp_offsets[tp])`
abbrev pub later_offset : ℕ → Option ℕ → ℕ
later_offset offset none = offset
later_offset offset (some o) = max offset o

unfoldable pub set_persisted_offsets : Dict Tp ℕ → Dict Tp ℕ → Dict Tp ℕ
set_persisted_offsets persisted [] = persisted
set_persisted_offsets persisted ((tp, offset) ∷ rest) =
    set_persisted_offsets (put persisted tp offset) rest

-- What a value of the changelog holds: a member, or the members added and those removed.
module _ {B X : Type 0} ⦃e : Eq X⦄ (member : B → X) (members : B → List X × List X) where
  -- `ChangeloggedSet.apply_changelog_event`: `none` is the exception for an unknown operation.
  unfoldable pub apply_changelog_event : List X → ℕ → B → Option (List X)
  apply_changelog_event xs operation value =
      if nat_beq operation operation_add
      then some (include xs (member value))
      else if nat_beq operation operation_discard
      then some (keep (λ x. not (x == member value)) xs)
      else if nat_beq operation operation_update
      then some (difference (union xs (members value).0) (members value).1)
      else none

-- `self[key]`: an object that is not there is made.
abbrev pub object_or : {X : Type 0} → Option (List X) → List X
object_or none = []
object_or (some xs) = xs

module _ {K X : Type 0} ⦃k : Eq K⦄ where
  abbrev pub object_at : Manager K X → K → List X
  object_at m key = object_or (get m.objects key)

  abbrev pub with_object : Manager K X → K → List X → Manager K X
  with_object m key xs = record m { objects = put m.objects key xs }

  -- `send_changelog_event`, less the message that the table sends
  unfoldable pub send_changelog_event : Manager K X → K → Manager K X
  send_changelog_event m key = record m { dirty = include m.dirty key }

  unfoldable pub sync_each : Manager K X → Dict K (List X) → Manager K X
  sync_each m [] = m
  sync_each m ((key, value) ∷ items) = sync_each (with_object m key value) items

  unfoldable pub sync_from_storage : Manager K X → Manager K X
  unfolding sync_each
  sync_from_storage m = sync_each m m.storage

  abbrev pub store_object : Manager K X → K → Option (List X) → Manager K X × Option Error
  store_object m key none = (m, some key_error)
  store_object m key (some xs) = (record m { storage = put m.storage key xs }, none)

  abbrev pub and_then :
      Manager K X × Option Error
      → (Manager K X → Manager K X × Option Error)
      → Manager K X × Option Error
  and_then (m, none) f = f m
  and_then (m, some error) f = (m, some error)

  unfoldable pub flush_each : Manager K X → List K → Manager K X × Option Error
  flush_each m [] = (record m { dirty = [] }, none)
  flush_each m (key ∷ keys) =
      and_then (store_object m key (get m.objects key)) λ m'. flush_each m' keys

  unfoldable pub flush_to_storage : Manager K X → Manager K X × Option Error
  unfolding flush_each
  flush_to_storage m = flush_each m m.dirty

  module _ {A B : Type 0} ⦃x : Eq X⦄ (to_key : A → K) (member : B → X)
      (members : B → List X × List X) where
    -- `self[key].apply_changelog_event(operation, value)`: the object is there even if it raises.
    abbrev pub with_change : Manager K X → K → Option (List X) → Manager K X × Option Error
    with_change m key none = (with_object m key (object_at m key), some not_implemented)
    with_change m key (some xs) = (with_object m key xs, none)

    unfoldable pub apply_one : Manager K X → Option (ℕ × A) → B → Manager K X × Option Error
    unfolding apply_changelog_event
    apply_one m none value = (m, some runtime_error)
    apply_one m (some (operation, key)) value =
        with_change m (to_key key)
          (apply_changelog_event member members (object_at m (to_key key)) operation value)

    -- The loops over the batch and, where nothing is raised, over the offsets it collected
    unfoldable pub apply_each :
        Manager K X → Dict Tp ℕ → List (Event A B) → Manager K X × Option Error
    unfolding apply_one set_persisted_offsets
    apply_each m tp_offsets [] =
        (record m { persisted = set_persisted_offsets m.persisted tp_offsets }, none)
    apply_each m tp_offsets (event ∷ batch) = and_then (apply_one m event.key event.value) λ m'.
        apply_each m'
          (put tp_offsets event.tp (later_offset event.offset (get tp_offsets event.tp))) batch

    unfoldable pub apply_changelog_batch :
        Manager K X → List (Event A B) → Manager K X × Option Error
    unfolding apply_each
    apply_changelog_batch m batch = apply_each m [] batch
