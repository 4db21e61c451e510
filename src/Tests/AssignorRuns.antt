-- ===== src/Tests/AssignorRuns.antt =====
-- The assignor on a topic of three partitions and two clients.
use faust.Common.{
  ℕ, ◌≤◌, ◌<◌, ◌≡◌, refl, true, false, List, [], ◌∷◌, none, arith, ok, length, All, String,
  string_eq, nat_eq,
}
use faust.Common.Counting.{count}
use faust.Common.Dict.{Dict}
use faust.Assignor.Copartition.{CopartitionedAssignment}
use faust.Assignor.Copartitioned.{
  CopartitionedAssignor, init, ceil_div, assigned_partitions, assigned_partition_counts,
}
use faust.Assignor.Copartitioned.RoundRobin.{assign, get_assignment}
use faust.Assignor.Copartitioned.Balance.{IsBalanced, assign-IsBalanced}
use faust.Assignor.Copartitioned.NoReplicas.{get_assignment-no_replicas}
use faust.Assignor.Client.{ClientAssignment}
use faust.Assignor.Partition.{Table}
use faust.Common.ListKeys.{list_eq}

abbrev first_or_zero : List ℕ → ℕ
first_or_zero [] = 0
first_or_zero (p ∷ ps) = p

abbrev busy : CopartitionedAssignment
busy = record { actives = 0 ∷ 1 ∷ 2 ∷ []; standbys = []; topics = "orders" ∷ [] }

abbrev idle : CopartitionedAssignment
idle = record { actives = 2 ∷ []; standbys = 1 ∷ []; topics = "orders" ∷ [] }

abbrev two_clients : List CopartitionedAssignment
two_clients = busy ∷ idle ∷ []

abbrev three_partitions : CopartitionedAssignor
three_partitions = record {
  max_capacity = 3;
  min_capacity = 1;
  num_partitions = 3;
  replicas = 0;
  topics = "orders" ∷ [];
  num_clients = 2;
  client_assignments = two_clients;
}

get_assignment-no_replicas_example :
    (s s' : CopartitionedAssignor) × (init ("orders" ∷ []) two_clients 3 0 none ≡ ok s)
    × (get_assignment first_or_zero 3 s ≡ ok s')
    × ((q : ℕ) → q < 3 → assigned_partition_counts s'.client_assignments true q ≡ 1)
    × All (λ c. length c.actives ≤ ceil_div 3 (length two_clients)) s'.client_assignments
    × ((q : ℕ) → q < 3 → assigned_partition_counts s'.client_assignments false q ≡ 0)
get_assignment-no_replicas_example =
    get_assignment-no_replicas first_or_zero ("orders" ∷ []) two_clients 3 (omega arith)
      ((omega arith, (omega arith, (omega arith, tt))), ((omega arith, tt), tt))

assign-IsBalanced_example :
    (cs' : List CopartitionedAssignment) × (assign first_or_zero 3 three_partitions true two_clients
      ≡ ok cs')
    × IsBalanced three_partitions cs'
assign-IsBalanced_example =
    assign-IsBalanced first_or_zero 3 three_partitions two_clients (omega arith) refl (omega arith)
      (
        (omega arith, (omega arith, (omega arith, (omega arith, tt)))),
        ((omega arith, (omega arith, tt)), tt),
      )

busy_once : (q : ℕ) → q < 3 → assigned_partition_counts (busy ∷ []) true q ≤ 1
unfolding assigned_partition_counts assigned_partitions count
busy_once q h = ground arith

abbrev no_topics : ClientAssignment
no_topics = record { actives = []; standbys = [] }

abbrev with_orders : ClientAssignment
with_orders = record { actives = ("orders", 2 ∷ []) ∷ []; standbys = ("orders", 1 ∷ []) ∷ [] }

abbrev prices : Table
prices = record {
  is_global = true;
  changelog_topic_name = "prices";
  synchronize_all_active_partitions = false;
  use_partitioner = false;
}

abbrev one_member : Dict String ClientAssignment
one_member = ("member", with_orders) ∷ []

abbrev with_prices : Dict String ClientAssignment
with_prices =
    (
      "member",
      record {
        actives = ("orders", 2 ∷ []) ∷ ("prices", 0 ∷ 1 ∷ []) ∷ [];
        standbys = ("orders", 1 ∷ []) ∷ ("prices", 0 ∷ 1 ∷ []) ∷ [];
      },
    )
    ∷ []

abbrev subscribers : Dict String (List String)
subscribers = ("orders", "a" ∷ "b" ∷ []) ∷ ("prices", "a" ∷ []) ∷ ("items", "a" ∷ "b" ∷ []) ∷ []

abbrev groups : Dict (List String) (List String)
groups = ("a" ∷ "b" ∷ [], "orders" ∷ "items" ∷ []) ∷ ("a" ∷ [], "prices" ∷ []) ∷ []
