-- ===== src/Tests/SchedulerRuns.antt =====
-- The scheduler on two topics.
use faust.Common.{ℕ, ◌≡◌, refl, List, [], ◌∷◌, some, arith, string_eq}
use faust.Common.Dict.{get}
use faust.Types.{Tp, tp_eq}
use faust.Scheduler.{iterate}
use faust.Scheduler.Buffers.{messages, total}
use faust.Scheduler.Rounds.{delivered}
use faust.Scheduler.Delivery.{iterate_lem}

abbrev orders_1 : Tp
orders_1 = record { topic = "orders"; partition = 1 }

abbrev orders_2 : Tp
orders_2 = record { topic = "orders"; partition = 2 }

abbrev prices_1 : Tp
prices_1 = record { topic = "prices"; partition = 1 }

abbrev fetched : List (Tp × List ℕ)
fetched = (orders_1, 1 ∷ 2 ∷ []) ∷ (orders_2, 3 ∷ []) ∷ (prices_1, 4 ∷ 5 ∷ []) ∷ []

iterate_example :
    (items : List (Tp × ℕ)) × (iterate 8 fetched ≡ some items)
    × ((tp : Tp) → delivered tp items ≡ messages tp fetched)
unfolding get total
iterate_example = iterate_lem 8 fetched (refl, (refl, (refl, tt))) (omega arith)
