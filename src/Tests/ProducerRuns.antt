-- ===== src/Tests/ProducerRuns.antt =====
-- A producer's buffer with a few messages.
use faust.Common.{ℕ, ◌≡◌, Bool, false, List, [], ◌∷◌, ◌++◌, none, ok}
use faust.Producer.{Buffer, puts, works, flush_atmost}
use faust.Producer.Flushing.{KeepsOrder, sending, flush_atmost-everything, flush-leaves_last}

abbrev buffer : Buffer ℕ
buffer = sending [] 1 (2 ∷ 3 ∷ []) false

flush_atmost-everything_example :
    KeepsOrder buffer
      ((works ∷ puts 4 ∷ []) ∷ [])
      (flush_atmost none 0 ((works ∷ puts 4 ∷ []) ∷ []) buffer)
flush_atmost-everything_example = flush_atmost-everything none 0 ((works ∷ puts 4 ∷ []) ∷ []) buffer

flush-leaves_last_example :
    (earlier : List ℕ) × (last : ℕ) × (flag : Bool) × (flush_atmost none 0
        ((works ∷ works ∷ []) ∷ (works ∷ works ∷ []) ∷ [])
        buffer
      ≡ (sending earlier last [] flag, ok 2))
    × (earlier ++ last ∷ [] ≡ 1 ∷ 2 ∷ 3 ∷ [])
flush-leaves_last_example = flush-leaves_last 0 [] 1 (2 ∷ 3 ∷ []) false
