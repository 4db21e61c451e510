-- ===== src/Assignor/Client.antt =====
-- `ClientAssignment` of faust/assignor/client_assignment.py, and `ClusterAssignment` of
-- faust/assignor/cluster_assignment.py.
pub mod Copartitions
use faust.Common.{
  ℕ, ◌≡◌, refl, Bool, true, false, not, List, [], ◌∷◌, ◌++◌, map, Option, none, some, if◌then◌else◌,
  Result, ok, err, assertion_error, ◌>>=◌, ◌>>◌, check, contains, include, union, all, any, String,
  string_eq, nat_eq, ◌==◌,
}
use faust.Common.Dict.{Dict, get, put}
use faust.Types.{Tp, tp_eq}
use faust.Assignor.Copartition.{CopartitionedAssignment, validate}

pub record ClientAssignment : Type 0 where
  pub actives : Dict String (List ℕ)
  pub standbys : Dict String (List ℕ)

abbrev pub partitions_or : Option (List ℕ) → List ℕ
partitions_or none = []
partitions_or (some ps) = ps

-- `set(xs)`
abbrev pub set_of : List ℕ → List ℕ
set_of xs = union [] xs

abbrev pub tps_of : Dict String (List ℕ) → List Tp
tps_of [] = []
tps_of ((topic, ps) ∷ rest) =
    union (map (λ p. record { topic = topic; partition = p }) ps) (tps_of rest)

unfoldable pub get_tps : ClientAssignment → Bool → List Tp
get_tps a active = tps_of (if active then a.actives else a.standbys)

-- The standbys of the changelog topics, on top of the actives
unfoldable pub extend_each :
    List String → Dict String (List ℕ) → Dict String (List ℕ) → Dict String (List ℕ)
extend_each changelog_topics assignment [] = assignment
extend_each changelog_topics assignment ((topic, ps) ∷ rest) =
    extend_each changelog_topics
      (if contains changelog_topics topic
        then put assignment topic (partitions_or (get assignment topic) ++ ps)
        else assignment)
      rest

unfoldable pub kafka_protocol_assignment : ClientAssignment → List String → Dict String (List ℕ)
unfolding extend_each
kafka_protocol_assignment a changelog_topics = extend_each changelog_topics a.actives a.standbys

abbrev pub keys : {V : Type 0} → Dict String V → List String
keys d = map (λ e. e.0) d

abbrev pub put_each : Dict String (List ℕ) → List String → List ℕ → Dict String (List ℕ)
put_each d [] ps = d
put_each d (topic ∷ topics) ps = put_each (put d topic ps) topics ps

unfoldable pub add_copartitioned_assignment :
    ClientAssignment → CopartitionedAssignment → Result ClientAssignment
add_copartitioned_assignment a assignment = do
  let assigned = union (keys a.actives) (keys a.standbys)
  check (not (any (contains assigned) assignment.topics)) assertion_error
  ok (record {
    actives = put_each a.actives assignment.topics assignment.actives;
    standbys = put_each a.standbys assignment.topics assignment.standbys;
  })

-- `next((p for p in ... if p), set())`
abbrev pub first_nonempty : List (List ℕ) → List ℕ
first_nonempty [] = []
first_nonempty ([] ∷ rest) = first_nonempty rest
first_nonempty ((p ∷ ps) ∷ rest) = p ∷ ps

unfoldable pub colocated_partitions : ClientAssignment → List String → Bool → List ℕ
colocated_partitions a topics active =
    let assignment = if active then a.actives else a.standbys in
    first_nonempty (map (λ t. set_of (partitions_or (get assignment t))) topics)

unfoldable pub copartitioned_assignment : ClientAssignment → List String → CopartitionedAssignment
unfolding colocated_partitions
copartitioned_assignment a topics = validate (record {
  actives = colocated_partitions a topics true;
  standbys = colocated_partitions a topics false;
  topics = topics;
})

pub record ClientMetadata : Type 0 where
  pub assignment : ClientAssignment
  pub url : String
  pub changelog_distribution : Dict String (Dict String (List ℕ))
  pub external_topic_distribution : Dict String (Dict String (List ℕ))
  pub topic_groups : Dict String ℕ

pub record ClusterAssignment : Type 0 where
  pub subscriptions : Dict String (List String)
  pub assignments : Dict String ClientAssignment

abbrev pub topics_of : Dict String (List String) → List String
topics_of [] = []
topics_of ((client, subscription) ∷ rest) = union (union [] subscription) (topics_of rest)

unfoldable pub topics : ClusterAssignment → List String
topics c = topics_of c.subscriptions

unfoldable pub add_client :
    ClusterAssignment → String → List String → ClientMetadata → ClusterAssignment
add_client c client subscription metadata = record {
  subscriptions = put c.subscriptions client subscription;
  assignments = put c.assignments client metadata.assignment;
}

-- `copartitioned_topics.issubset(sub)`, for a client
abbrev pub is_subscribed : ClusterAssignment → List String → String → Bool
is_subscribed c copartitioned_topics client = elim (get c.subscriptions client) [
  | none ↦ false
  | some subscription ↦ all (contains subscription) copartitioned_topics
]

abbrev pub assignments_of :
    ClusterAssignment
    → List String
    → Dict String ClientAssignment
    → Dict String CopartitionedAssignment
assignments_of c copartitioned_topics [] = []
assignments_of c copartitioned_topics ((client, assignment) ∷ rest) =
    let others = assignments_of c copartitioned_topics rest in
    if is_subscribed c copartitioned_topics client
    then (client, copartitioned_assignment assignment copartitioned_topics) ∷ others
    else others

unfoldable pub copartitioned_assignments :
    ClusterAssignment → List String → Dict String CopartitionedAssignment
copartitioned_assignments c copartitioned_topics =
    assignments_of c copartitioned_topics c.assignments
