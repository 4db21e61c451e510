-- ===== src/Tests/TableRuns.antt =====
-- Recovery, the in-memory store and the sets on short changelogs.
use faust.Common.{
  ℕ, ◌≡◌, refl, Bool, true, false, List, [], ◌∷◌, ◌++◌, none, some, string_eq, nat_eq, contains,
  ltb, ok, ◌&&◌,
}
use faust.Common.Dict.{get}
use faust.Types.{Tp, tp_eq}
use faust.Recovery.{Event, Tables, Recovery, get_offset}
use faust.Recovery.Slurp.{Source, source_of, slurp, is_unseen}
use faust.Common.Int.{ℤ, pos, ◌≤ℤ◌}
use faust.Recovery.Buffers.{IsDistinct}
use faust.Recovery.Start.{build_offsets, seek_offsets, is_available, build_offsets_lem}
use faust.Recovery.Seen.{seen_offset}
use faust.Recovery.Replay.{slurp_each, expected, slurp_each-expected}
use faust.Recovery.Journal.{journal, slurp-journal, slurp-unknown_partition}
use faust.Stores.{Change, Store, apply_changelog_batch}
use faust.Stores.Changes.{lookup, has_tombstone, last_value, apply_changelog_batch_lem}
use faust.Objects
use faust.Objects.{Manager, object_at}
use faust.Objects.Replay.{all_known, replay, newest, apply_changelog_batch-replay}

abbrev changelog : ℕ → Tp
changelog p = record { topic = "table-changelog"; partition = p }

abbrev tables : Tables
tables = record {
  recovery_buffer_size = λ t. 2;
  standby_buffer_size = λ t. 2;
  persisted_offset = λ t tp. none;
}

abbrev event : ℕ → ℕ → Event ℕ
event p offset = record { tp = changelog p; offset = offset; payload = offset }

-- Partition 0 belongs to table 4, and one event waits in its buffer.
abbrev recovery : Recovery ℕ
recovery = record {
  active_tps = changelog 0 ∷ [];
  standby_tps = [];
  tp_to_table = (changelog 0, 4) ∷ [];
  actives_for_table = (4, changelog 0 ∷ []) ∷ [];
  standbys_for_table = [];
  active_offsets = [];
  standby_offsets = [];
  active_highwaters = [];
  standby_highwaters = [];
  buffers = (4, event 0 1 ∷ []) ∷ [];
  buffer_sizes = [];
  in_recovery = false;
  applied = (4, event 0 0 ∷ []) ∷ [];
}

abbrev table_four : Source
table_four = record { is_active = true; table = 4 }

slurp-journal_example :
    (journal (slurp tables recovery none (event 0 2)).0 4 ≡ journal recovery 4 ++ event 0 2 ∷ [])
    × IsDistinct (slurp tables recovery none (event 0 2)).0.buffers
unfolding source_of get
slurp-journal_example = slurp-journal tables recovery none (event 0 2) true 4 4 (refl, tt) refl

slurp-unknown_partition_example :
    journal (slurp tables recovery (some table_four) (event 9 0)).0 4
    ≡ journal recovery 4 ++ event 9 0 ∷ []
unfolding source_of get
slurp-unknown_partition_example =
    slurp-unknown_partition tables recovery table_four (event 9 0) 4 (refl, tt) refl

abbrev same : ℕ → ℕ
same n = n

abbrev is_positive : ℕ → Bool
is_positive n = ltb 0 n

abbrev set_to : Bool → ℕ → Change ℕ ℕ
set_to is_none v = record { key = 1; value = v; message_is_none = is_none; partition = 0 }

abbrev store : Store ℕ ℕ
store = record { entries = (1, 7) ∷ (2, 8) ∷ []; key_partition = [] }

-- The key is set to 0 after it was deleted, and 0 is false.
apply_changelog_batch_example :
    lookup
      (apply_changelog_batch same same is_positive store (set_to true 0 ∷ set_to false 0 ∷ []))
      1
    ≡ ok none
unfolding last_value has_tombstone get
apply_changelog_batch_example =
    apply_changelog_batch_lem is_positive same same store (set_to true 0 ∷ set_to false 0 ∷ []) 1

abbrev pair_of : ℕ → List ℕ × List ℕ
pair_of n = (n ∷ 5 ∷ [], 6 ∷ [])

abbrev set_event : ℕ → ℕ → ℕ → Objects.Event ℕ ℕ
set_event offset operation v = record {
  tp = changelog 0;
  offset = offset;
  key = some (operation, 3);
  value = v;
}

abbrev sets : Manager ℕ ℕ
sets = record { objects = []; dirty = []; storage = []; persisted = [] }

abbrev batch : List (Objects.Event ℕ ℕ)
batch = set_event 4 1 6 ∷ set_event 5 15 9 ∷ set_event 6 2 9 ∷ []

apply_changelog_batch-replay_example :
    ((Objects.apply_changelog_batch same same pair_of sets batch).1 ≡ none)
    × (contains (object_at (Objects.apply_changelog_batch same same pair_of sets batch).0 3) 5
        ≡ true)
    × (get (Objects.apply_changelog_batch same same pair_of sets batch).0.persisted (changelog 0)
        ≡ some 6)
unfolding all_known replay newest get
apply_changelog_batch-replay_example =
    apply_changelog_batch-replay same pair_of same sets batch 3 5 (changelog 0) refl

abbrev located : Store ℕ ℕ
located = record { entries = (1, 7) ∷ (2, 8) ∷ (3, 9) ∷ []; key_partition = (1, 0) ∷ (2, 5) ∷ [] }

abbrev two_events : List (Event ℕ)
two_events = event 0 2 ∷ event 0 1 ∷ event 0 3 ∷ []

slurp_each-expected_example :
    journal (slurp_each tables recovery none two_events).0 4
    ≡ journal recovery 4 ++ expected (get recovery.tp_to_table) 4 (seen_offset recovery) two_events
unfolding source_of get
slurp_each-expected_example =
    slurp_each-expected tables recovery none two_events 4 (refl, tt)
      ((table_four, refl), ((table_four, refl), ((table_four, refl), tt)))

build_offsets_example :
    (is_unseen
        (get_offset
          (build_offsets
            ((changelog 0, some 3) ∷ [])
            (changelog 0 ∷ [])
            ((changelog 0, some (pos 1)) ∷ []))
          (changelog 0))
        4
      ≡ (is_unseen (some (pos 1)) 4 && is_available (some (some 3)) 4))
    × (is_unseen (some (pos 1)) 4 ≡ true
        → is_available (some (some 3)) 4 ≡ true
        → (s : ℤ) × (get
              (seek_offsets
                (build_offsets
                  ((changelog 0, some 3) ∷ [])
                  (changelog 0 ∷ [])
                  ((changelog 0, some (pos 1)) ∷ []))
                (changelog 0 ∷ []))
              (changelog 0)
            ≡ some (some s))
          × (s ≤ℤ pos 4))
unfolding get
build_offsets_example =
    build_offsets_lem ((changelog 0, some 3) ∷ []) (changelog 0 ∷ [])
      ((changelog 0, some (pos 1)) ∷ []) (changelog 0) (some (pos 1)) 4 (refl, tt) refl refl
