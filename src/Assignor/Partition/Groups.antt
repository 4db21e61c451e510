-- ===== src/Assignor/Partition/Groups.antt =====
-- `_group_co_subscribed` of faust/assignor/partition_assignor.py: topics by their subscribers.
use faust.Common.{
  ◌≡◌, ap, ◌∙◌, not, ◌&&◌, ◌||◌, List, [], ◌∷◌, arith, ok, assertion_error, >>=-eq-ok, check,
  length, contains, include, String, string_eq, nat_eq, ◌==◌,
}
use faust.Common.Dict.{Dict, get, put, get-put}
use faust.Common.ListKeys.{list_beq, list_beq_iff, list_eq}
use faust.Common.Members.{contains-include}
use faust.Assignor.Partition.{topics_or, group_by_clients}

abbrev pub clients_of : Dict String (List String) → String → List String
clients_of subscribers topic = topics_or (get subscribers topic)

abbrev pub group_of : Dict (List String) (List String) → List String → List String
group_of groups clients = topics_or (get groups clients)

group_of-put :
    (groups : Dict (List String) (List String)) (clients k : List String) (topic t : String)
    → contains (group_of (put groups clients (include (group_of groups clients) topic)) k) t
      ≡ (contains (group_of groups k) t || list_beq clients k && (topic == t))
group_of-put groups clients k topic t = ground (
  arith,
  get-put groups clients k (include (group_of groups clients) topic),
  contains-include (group_of groups clients) topic t,
  list_beq_iff clients k,
  same,
)
  where
    same : clients ≡ k → group_of groups clients ≡ group_of groups k
    same q = ap (group_of groups) q

group_by_clients_lem :
    (subscribers : Dict String (List String)) (groups groups' : Dict (List String) (List String))
    (ts : List String) (k : List String) (t : String)
    → group_by_clients subscribers groups ts ≡ ok groups'
    → contains (group_of groups' k) t
      ≡ (contains (group_of groups k) t || contains ts t && list_beq (clients_of subscribers t) k)
unfolding group_by_clients
group_by_clients_lem subscribers groups groups' [] k t e =
    let same : groups ≡ groups' = cc in rw same (ground arith)
group_by_clients_lem subscribers groups groups' (topic ∷ ts) k t e =
    let clients = clients_of subscribers topic in
    let (_, _, rest) = >>=-eq-ok (check (not (length clients == 0)) assertion_error) _ e in
    let later =
      group_by_clients_lem subscribers
        (put groups clients (include (group_of groups clients) topic)) groups' ts k t rest in
    let same : topic ≡ t → list_beq clients k ≡ list_beq (clients_of subscribers t) k =
      λ q. ap (λ u. list_beq (clients_of subscribers u) k) q in
    later ∙ ground (arith, group_of-put groups clients k topic t, same, string_eq.beq_iff topic t)

-- When topics are grouped by their subscribers, a topic is in the group of some clients exactly
-- when it is one of the topics and these clients are its subscribers.
pub group_by_clients-groups :
    (subscribers : Dict String (List String)) (groups : Dict (List String) (List String))
    (ts : List String) (clients : List String) (topic : String)
    → group_by_clients subscribers [] ts ≡ ok groups
    → contains (group_of groups clients) topic
      ≡ (contains ts topic && list_beq (clients_of subscribers topic) clients)
unfolding get
group_by_clients-groups subscribers groups ts clients topic e =
    group_by_clients_lem subscribers [] groups ts clients topic e
