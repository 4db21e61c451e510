-- ===== src/Assignor/Partition.antt =====
-- `PartitionAssignor` of faust/assignor/partition_assignor.py: the leader's assignment of all
-- topics to all members. Metadata is taken after `loads`, the result before `dumps`; what the
-- cluster knows of a topic, and what `set.pop` takes, are arguments.
pub mod Perform
pub mod Globals
pub mod Groups
use faust.Common.{
  ℕ, zero, suc, ◌≡◌, refl, Bool, true, false, not, ◌&&◌, ◌||◌, List, [], ◌∷◌, ◌++◌, map, Option,
  none, some, if◌then◌else◌, Result, ok, err, assertion_error, key_error, ◌>>=◌, ◌>>◌, check,
  length, contains, include, union, difference, range, keep, String, string_eq, nat_eq, Eq, ◌==◌,
  leb,
}
use faust.Common.Dict.{Dict, get, put}
use faust.Common.Order.{sorted_by}
use faust.Types.{Tp, tp_eq}
use faust.Common.ListKeys.{list_eq}
use faust.Assignor.Copartition.{CopartitionedAssignment}
use faust.Assignor.Copartitioned.{CopartitionedAssignor, init}
use faust.Assignor.Copartitioned.RoundRobin.{get_assignment}
use faust.Assignor.Client.{
  ClientAssignment, ClientMetadata, ClusterAssignment, partitions_or, set_of, add_client, topics,
  add_copartitioned_assignment, copartitioned_assignments, kafka_protocol_assignment,
}

-- What a member sends, and what it is sent.
pub record MemberMetadata : Type 0 where
  pub subscription : List String
  pub user_data : ClientMetadata

pub record MemberAssignment : Type 0 where
  pub assignment : Dict String (List ℕ)
  pub user_data : ClientMetadata

-- What the assignor asks of a table
pub record Table : Type 0 where
  pub is_global : Bool
  pub changelog_topic_name : String
  pub synchronize_all_active_partitions : Bool
  pub use_partitioner : Bool

abbrev pub Distribution : Type 0
Distribution = Dict String (Dict String (List ℕ))

abbrev pub topics_or : Option (List String) → List String
topics_or none = []
topics_or (some ts) = ts

-- `topic_subscriptions[topic].add(client)`
abbrev pub add_subscriber :
    Dict String (List String) → String → List String → Dict String (List String)
add_subscriber d client [] = d
add_subscriber d client (topic ∷ subscription) =
    add_subscriber (put d topic (include (topics_or (get d topic)) client)) client subscription

unfoldable pub topic_subscriptions :
    Dict String (List String) → Dict String (List String) → Dict String (List String)
topic_subscriptions d [] = d
topic_subscriptions d ((client, subscription) ∷ rest) =
    topic_subscriptions (add_subscriber d client subscription) rest

unfoldable pub group_by_clients :
    Dict String (List String)
    → Dict (List String) (List String)
    → List String
    → Result (Dict (List String) (List String))
group_by_clients subscribers groups [] = ok groups
group_by_clients subscribers groups (topic ∷ ts) = do
  let clients = topics_or (get subscribers topic)
  check (not (length clients == 0)) assertion_error
  group_by_clients subscribers (put groups clients (include (topics_or (get groups clients)) topic))
      ts

unfoldable pub group_co_subscribed :
    List String → Dict String (List String) → Result (List (List String))
unfolding topic_subscriptions group_by_clients
group_co_subscribed ts subscriptions = do
  groups ← group_by_clients (topic_subscriptions [] subscriptions) [] ts
  ok (map (λ g. g.1) groups)

-- The topics by their number of partitions; a topic the cluster does not know is left out.
unfoldable pub topics_by_partitions :
    (String → Option (List ℕ)) → Dict ℕ (List String) → List String → Dict ℕ (List String)
topics_by_partitions partitions_for_topic d [] = d
topics_by_partitions partitions_for_topic d (topic ∷ ts) =
    let n = length (partitions_or (partitions_for_topic topic)) in
    topics_by_partitions partitions_for_topic
      (if n == 0 then d else put d n (include (topics_or (get d n)) topic)) ts

unfoldable pub group_each :
    Dict String (List String) → Dict ℕ (List String) → Result (Dict ℕ (List (List String)))
unfolding group_co_subscribed
group_each subscriptions [] = ok []
group_each subscriptions ((n, ts) ∷ rest) = do
  groups ← group_co_subscribed ts subscriptions
  others ← group_each subscriptions rest
  ok ((n, groups) ∷ others)

unfoldable pub get_copartitioned_groups :
    List String
    → (String → Option (List ℕ))
    → Dict String (List String)
    → Result (Dict ℕ (List (List String)))
unfolding topics_by_partitions group_each
get_copartitioned_groups ts partitions_for_topic subscriptions =
    group_each subscriptions (topics_by_partitions partitions_for_topic [] ts)

abbrev pub update_client :
    Dict String ClientAssignment
    → String
    → Option ClientAssignment
    → CopartitionedAssignment
    → Result (Dict String ClientAssignment)
update_client assignments client none a = err key_error
update_client assignments client (some c) a = do
  c' ← add_copartitioned_assignment c a
  ok (put assignments client c')

-- `assignments[client].add_copartitioned_assignment(copart_assn)`, for the clients in order
unfoldable pub add_each :
    Dict String ClientAssignment
    → List String
    → List CopartitionedAssignment
    → Result (Dict String ClientAssignment)
add_each assignments [] found = ok assignments
add_each assignments (client ∷ clients) [] = ok assignments
add_each assignments (client ∷ clients) (a ∷ found) = do
  assignments' ← update_client assignments client (get assignments client) a
  add_each assignments' clients found

module _ (choose : List ℕ → ℕ) (fuel replicas : ℕ) (cluster : ClusterAssignment) where
  unfoldable pub assign_group :
      Dict String ClientAssignment → ℕ → List String → Result (Dict String ClientAssignment)
  unfolding add_each
  assign_group assignments num_partitions ts = do
    check (not (length ts == 0) && not (num_partitions == 0)) assertion_error
    let assgn = copartitioned_assignments cluster ts
    s ← init ts (map (λ e. e.1) assgn) num_partitions replicas none
    s' ← get_assignment choose fuel s
    add_each assignments (map (λ e. e.0) assgn) s'.client_assignments

  unfoldable pub assign_groups :
      Dict String ClientAssignment → ℕ → List (List String) → Result (Dict String ClientAssignment)
  unfolding assign_group
  assign_groups assignments num_partitions [] = ok assignments
  assign_groups assignments num_partitions (ts ∷ groups) = do
    assignments' ← assign_group assignments num_partitions ts
    assign_groups assignments' num_partitions groups

  unfoldable pub assign_all :
      Dict String ClientAssignment
      → List (ℕ × List (List String))
      → Result (Dict String ClientAssignment)
  unfolding assign_groups
  assign_all assignments [] = ok assignments
  assign_all assignments ((num_partitions, groups) ∷ rest) = do
    assignments' ← assign_groups assignments num_partitions groups
    assign_all assignments' rest
