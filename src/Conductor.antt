-- ===== src/Conductor.antt =====
-- faust/transport/conductor.py: which channels a message goes to, and how it is handed to them;
-- and the acknowledgement of an event in faust/events.py.
pub mod Handler
pub mod Routes
pub mod Callbacks
pub mod Balance
pub mod Acks
use faust.Common.{
  ℕ, zero, suc, ◌+◌, ◌-◌, ◌≡◌, Bool, true, false, not, ◌&&◌, ◌||◌, List, [], ◌∷◌, ◌++◌, Option,
  none, some, if◌then◌else◌, String, string_eq, nat_eq, nat_beq, ◌==◌, contains, include, all, any,
  keep, map, length, difference, Result, ok, err, assertion_error, check, ◌>>=◌, ◌>>◌,
}
use faust.Common.Dict.{Dict, get, put}
use faust.Types.{Tp, tp_eq, Message, incref, ack}

-- A topic object (`_Topic`) that subscribes, known by a number; `keyid` stands for the pair of its key type
-- and its value type.
pub record Channel : Type 0 where
  pub ident : ℕ
  pub topics : List String
  pub acks : Bool
  pub active_partitions : Option (List Tp)
  pub keyid : ℕ

-- The handler of a partition is known by the channels it was built for.
pub record Conductor : Type 0 where
  pub topics : List Channel
  pub tp_index : Dict Tp (List ℕ)
  pub topic_name_index : Dict String (List ℕ)
  pub tp_to_callback : Dict Tp (List ℕ)
  pub acking_topics : List String

abbrev pub members : Option (List ℕ) → List ℕ
members none = []
members (some cs) = cs

-- `tp_index[tp].add(topic)` for several partitions
unfoldable pub add_to_index : Dict Tp (List ℕ) → ℕ → List Tp → Dict Tp (List ℕ)
add_to_index index ident [] = index
add_to_index index ident (tp ∷ tps) =
    add_to_index (put index tp (include (members (get index tp)) ident)) ident tps

-- `assignmap[subtopic]` of `tp_set_to_map(assigned)`, for the subtopics in turn
unfoldable pub tps_of_topics : List Tp → List String → List Tp
tps_of_topics assigned [] = []
tps_of_topics assigned (subtopic ∷ subtopics) =
    keep (λ tp. tp.topic == subtopic) assigned ++ tps_of_topics assigned subtopics

-- The partitions of one channel: its own, or all of its topics that are assigned
unfoldable pub partitions_of : Channel → List Tp → Result (List Tp)
unfolding tps_of_topics
partitions_of channel assigned = elim channel.active_partitions [
  | some tps ↦ do
    check (length assigned == 0 || all (contains assigned) tps) assertion_error
    ok tps
  | none ↦ ok (tps_of_topics assigned channel.topics)
]

unfoldable pub update_tp_index :
    Dict Tp (List ℕ) → List Channel → List Tp → Result (Dict Tp (List ℕ))
unfolding add_to_index partitions_of
update_tp_index index [] assigned = ok index
update_tp_index index (channel ∷ channels) assigned = do
  tps ← partitions_of channel assigned
  update_tp_index (add_to_index index channel.ident tps) channels assigned

-- `_update_callback_map`: the handlers that are there stay where the index has no other.
unfoldable pub update_callbacks : Dict Tp (List ℕ) → Dict Tp (List ℕ) → Dict Tp (List ℕ)
update_callbacks callbacks [] = callbacks
update_callbacks callbacks ((tp, channels) ∷ index) =
    update_callbacks (put callbacks tp channels) index

-- Where an assertion fails, what the index holds by then is left out.
unfoldable pub on_partitions_assigned : Conductor → List Tp → Result Conductor
unfolding update_tp_index update_callbacks
on_partitions_assigned c assigned = do
  index ← update_tp_index [] c.topics assigned
  ok (record c { tp_index = index; tp_to_callback = update_callbacks c.tp_to_callback index })

abbrev pub first_partitions : List String → List Tp
first_partitions topics = map (λ topic. record { topic = topic; partition = 0 }) topics

abbrev pub index_first : Dict Tp (List ℕ) → List Channel → Dict Tp (List ℕ)
index_first index [] = index
index_first index (channel ∷ channels) =
    index_first (add_to_index index channel.ident (first_partitions channel.topics)) channels

unfoldable pub on_client_only_start : Conductor → Conductor
unfolding add_to_index update_callbacks
on_client_only_start c =
    let index = index_first c.tp_index c.topics in
    record c { tp_index = index; tp_to_callback = update_callbacks c.tp_to_callback index }

-- The channels whose handler gets a message of the partition; `none` is logged.
abbrev pub callback_for_tp : Conductor → Tp → Option (List ℕ)
callback_for_tp c tp = get c.tp_to_callback tp

abbrev pub name_each : Dict String (List ℕ) → ℕ → List String → Dict String (List ℕ)
name_each index ident [] = index
name_each index ident (topic ∷ topics) =
    name_each (put index topic (include (members (get index topic)) ident)) ident topics

abbrev pub acking_each : List String → List String → List String
acking_each acking [] = acking
acking_each acking (topic ∷ topics) = acking_each (include acking topic) topics

-- `_update_indices`: the acking topics only grow.
unfoldable pub update_each :
    Dict String (List ℕ) → List String → List Channel → Dict String (List ℕ) × List String
update_each names acking [] = (names, acking)
update_each names acking (channel ∷ channels) =
    update_each (name_each names channel.ident channel.topics)
      (if channel.acks then acking_each acking channel.topics else acking) channels

unfoldable pub update_indices : Conductor → Conductor
unfolding update_each
update_indices c =
    let r = update_each [] c.acking_topics c.topics in
    record c { topic_name_index = r.0; acking_topics = r.1; tp_to_callback = [] }

abbrev pub acks_enabled_for : Conductor → String → Bool
acks_enabled_for c topic = contains c.acking_topics topic

abbrev pub is_registered : Conductor → Channel → Bool
is_registered c channel = any (λ d. nat_beq d.ident channel.ident) c.topics

-- `add`: the result says whether a change of the subscription is flagged.
unfoldable pub add : Conductor → Channel → Conductor × Bool
add c channel = if is_registered c channel then (c, false) else (
  record c { topics = c.topics ++ channel ∷ [] },
  not (length c.topic_name_index == 0)
      && any (λ t. not (any (λ e. e.0 == t) c.topic_name_index)) channel.topics,
)

unfoldable pub discard : Conductor → Channel → Conductor
discard c channel = record c { topics = keep (λ d. not (nat_beq d.ident channel.ident)) c.topics }

unfoldable pub clear : Conductor → Conductor
clear c = record {
  topics = [];
  tp_index = [];
  topic_name_index = [];
  tp_to_callback = [];
  acking_topics = [];
}
