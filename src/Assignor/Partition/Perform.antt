-- ===== src/Assignor/Partition/Perform.antt =====
-- `_perform_assignment` of faust/assignor/partition_assignor.py, and what follows the groups in it.
use faust.Common.{
  ℕ, suc, not, ◌||◌, List, [], ◌∷◌, Option, none, some, if◌then◌else◌, Result, ok, err, key_error,
  ◌>>=◌, contains, difference, range, keep, String, string_eq, nat_eq,
}
use faust.Common.Dict.{Dict, get, put}
use faust.Common.Order.{sorted_by}
use faust.Types.{Tp, tp_eq}
use faust.Assignor.Client.{
  ClientAssignment, ClusterAssignment, partitions_or, set_of, add_client, topics,
  kafka_protocol_assignment,
}
use faust.Assignor.Partition.{
  MemberMetadata, MemberAssignment, Table, Distribution, get_copartitioned_groups, assign_all,
}

-- `self._member_urls[client]` and other dictionaries indexed by a key
abbrev pub found : {V : Type 0} → Option V → Result V
found none = err key_error
found (some v) = ok v

-- All members have all partitions of a global table's changelog.
unfoldable pub with_global : Table → ℕ → ClientAssignment → ClientAssignment
with_global table num_partitions a =
    let topic = table.changelog_topic_name in
    let all_partitions = range num_partitions in
    let active_partitions = set_of (partitions_or (get a.actives topic)) in
    let standby_partitions =
      if table.synchronize_all_active_partitions || table.use_partitioner
      then all_partitions
      else difference all_partitions active_partitions in
    record {
      standbys = put a.standbys topic standby_partitions;
      actives = put a.actives topic all_partitions;
    }

abbrev pub map_values : {V W : Type 0} → (V → W) → Dict String V → Dict String W
map_values f [] = []
map_values f ((k, v) ∷ d) = (k, f v) ∷ map_values f d

unfoldable pub global_table_standby_assignments :
    Dict String ClientAssignment
    → Dict String ℕ
    → List Table
    → Result (Dict String ClientAssignment)
unfolding with_global
global_table_standby_assignments assignments partitions_by_topic [] = ok assignments
global_table_standby_assignments assignments partitions_by_topic (table ∷ tables) =
    if table.is_global
    then (found (get partitions_by_topic table.changelog_topic_name) >>= λ n.
        global_table_standby_assignments (map_values (with_global table n) assignments)
          partitions_by_topic tables)
    else global_table_standby_assignments assignments partitions_by_topic tables

-- `_topics_filtered` and `_non_table_topics_filtered`
unfoldable pub topics_filtered : Dict String (List ℕ) → List String → Dict String (List ℕ)
topics_filtered assignment ts = keep (λ e. contains ts e.0) assignment

unfoldable pub non_table_topics_filtered : Dict String (List ℕ) → List String → Dict String (List ℕ)
non_table_topics_filtered assignment ts = keep (λ e. not (contains ts e.0)) assignment

module _ (filtered : Dict String (List ℕ) → List String → Dict String (List ℕ)) where
  -- A distribution: by the member's URL, the actives of the topics that are wanted
  unfoldable pub distribution :
      Dict String String
      → List String
      → Distribution
      → Dict String ClientAssignment
      → Result Distribution
  distribution member_urls changelog_topics d [] = ok d
  distribution member_urls changelog_topics d ((client, a) ∷ rest) = do
    url ← found (get member_urls client)
    distribution member_urls changelog_topics (put d url (filtered a.actives changelog_topics)) rest

-- `_protocol_assignments`, less the sorting of a member's assignment by topic
unfoldable pub protocol_assignments :
    Dict String String
    → List String
    → Distribution
    → Distribution
    → Dict String ℕ
    → Dict String ClientAssignment
    → Result (Dict String MemberAssignment)
protocol_assignments member_urls changelog_topics cl tp topic_groups [] = ok []
protocol_assignments member_urls changelog_topics cl tp topic_groups ((client, a) ∷ rest) = do
  url ← found (get member_urls client)
  others ← protocol_assignments member_urls changelog_topics cl tp topic_groups rest
  ok (
      (
        client,
        record {
          assignment = kafka_protocol_assignment a changelog_topics;
          user_data = record {
            assignment = a;
            url = url;
            changelog_distribution = cl;
            external_topic_distribution = tp;
            topic_groups = topic_groups;
          };
        },
      )
      ∷ others)

abbrev pub add_clients : ClusterAssignment → Dict String MemberMetadata → ClusterAssignment
add_clients c [] = c
add_clients c ((client, m) ∷ members) =
    add_clients (add_client c client m.subscription m.user_data) members

-- `topic_to_group_id[topic] = group_id` and `partitions_by_topic[topic] = num_partitions`
abbrev pub tag_topics : Dict String ℕ → ℕ → List String → Dict String ℕ
tag_topics d n [] = d
tag_topics d n (topic ∷ ts) = tag_topics (put d topic n) n ts

abbrev pub tag_groups : Dict String ℕ → ℕ → List (List String) → Dict String ℕ
tag_groups d n [] = d
tag_groups d n (ts ∷ groups) = tag_groups (tag_topics d n ts) n groups

abbrev pub group_ids : Dict String ℕ → ℕ → Dict ℕ (List (List String)) → Dict String ℕ
group_ids d i [] = d
group_ids d i ((n, groups) ∷ rest) = group_ids (tag_groups d i groups) (suc i) rest

abbrev pub partition_counts : Dict String ℕ → Dict ℕ (List (List String)) → Dict String ℕ
partition_counts d [] = d
partition_counts d ((n, groups) ∷ rest) = partition_counts (tag_groups d n groups) rest

module _ (choose : List ℕ → ℕ) (fuel replicas : ℕ) (partitions_for_topic : String → Option (List ℕ))
    (tables : List Table) (changelog_topics : List String) where
  unfoldable pub perform_assignment :
      Dict String MemberMetadata → Result (Dict String MemberAssignment)
  unfolding get_copartitioned_groups assign_all global_table_standby_assignments distribution
      protocol_assignments topics_filtered non_table_topics_filtered
  perform_assignment members = do
    let cluster = add_clients (record { subscriptions = []; assignments = [] }) members
    let subscriptions = map_values (λ m. m.subscription) members
    groups ← get_copartitioned_groups (topics cluster) partitions_for_topic subscriptions
    let member_urls = map_values (λ m. m.user_data.url) members
    let fresh : Dict String ClientAssignment =
        map_values (λ m. record { actives = []; standbys = [] }) members
    let groups' = sorted_by (λ g. g.0) groups
    assignments ← assign_all choose fuel replicas cluster fresh groups'
    assignments' ← global_table_standby_assignments assignments (partition_counts [] groups') tables
    cl ← distribution topics_filtered member_urls changelog_topics [] assignments'
    tp ← distribution non_table_topics_filtered member_urls changelog_topics [] assignments'
    protocol_assignments member_urls changelog_topics cl tp (group_ids [] 0 groups') assignments'

-- The setters of the two distributions: the URL of each partition
abbrev pub urls_of_topic : Dict Tp String → String → String → List ℕ → Dict Tp String
urls_of_topic d url topic [] = d
urls_of_topic d url topic (p ∷ ps) =
    urls_of_topic (put d (record { topic = topic; partition = p }) url) url topic ps

abbrev pub urls_of_host : Dict Tp String → String → Dict String (List ℕ) → Dict Tp String
urls_of_host d url [] = d
urls_of_host d url ((topic, ps) ∷ rest) = urls_of_host (urls_of_topic d url topic ps) url rest

unfoldable pub tps_url : Dict Tp String → Distribution → Dict Tp String
tps_url d [] = d
tps_url d ((url, tps) ∷ rest) = tps_url (urls_of_host d url tps) rest
