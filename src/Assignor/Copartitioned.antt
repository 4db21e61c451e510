-- ===== src/Assignor/Copartitioned.antt =====
-- `CopartitionedAssignor` of faust/assignor/copartitioned_assignor.py. The clients are the values
-- of the dictionary `_client_assignments` in its order, and a reference to one of them is its
-- position there. `itertools.cycle` is the list of what comes next, and each step moves the head
-- to the end. What `set.pop` takes is named by `choose`.
pub mod RoundRobin
pub mod Removal
pub mod Unassign
pub mod Missing
pub mod Candidates
pub mod Clients
pub mod Ready
pub mod Actives
pub mod Balance
pub mod NoReplicas
use faust.Common.{
  ℕ, zero, suc, ◌+◌, ◌-◌, ◌*◌, ◌/◌, ◌≤◌, ◌<◌, min, ◌≡◌, refl, Bool, true, false, not, ◌&&◌, ◌||◌,
  List, [], ◌∷◌, ◌++◌, arith, if◌then◌else◌, ◌==◌, nat_eq, Result, ok, err, assertion_error,
  stop_iteration, key_error, out_of_fuel, ◌>>=◌, ◌>>◌, check, length, all, leb, replicate, range,
  range_from, get_elem?, set, String, Option, none, some,
}
use faust.Common.Counting.{count}
use faust.Common.Order.{sorted_by}
use faust.Assignor.Copartition.{
  CopartitionedAssignment, get_assigned_partitions, num_assigned, pop_partition, unassign_partition,
  assign_partition, unassign_extras, partition_assigned, can_assign,
}

pub record CopartitionedAssignor : Type 0 where
  pub max_capacity : ℕ
  pub min_capacity : ℕ
  pub num_partitions : ℕ
  pub replicas : ℕ
  pub topics : List String
  pub num_clients : ℕ
  pub client_assignments : List CopartitionedAssignment

-- `int(ceil(float(a) / b))` and `int(floor(float(a) / b))`, for counts that a float holds exactly.
abbrev pub ceil_div : ℕ → ℕ → ℕ
ceil_div a b = (a + b - 1) / b

abbrev pub capacity_or : Option ℕ → ℕ → ℕ
capacity_or none c = c
capacity_or (some c) _ = c

unfoldable pub init :
    List String → List CopartitionedAssignment → ℕ → ℕ → Option ℕ → Result CopartitionedAssignor
init topics cluster_asgn num_partitions replicas capacity = do
  let num_clients = length cluster_asgn
  check (not (num_clients == 0)) assertion_error
  let max_capacity = capacity_or capacity (ceil_div num_partitions num_clients)
  check (leb num_partitions (max_capacity * num_clients)) assertion_error
  ok (record {
    max_capacity = max_capacity;
    min_capacity = capacity_or capacity (num_partitions / num_clients);
    num_partitions = num_partitions;
    replicas = min replicas (num_clients - 1);
    topics = topics;
    num_clients = num_clients;
    client_assignments = cluster_asgn;
  })

-- All partitions that clients have, with repetitions: what the Counter is filled from.
unfoldable pub assigned_partitions : List CopartitionedAssignment → Bool → List ℕ
assigned_partitions [] active = []
assigned_partitions (c ∷ cs) active =
    get_assigned_partitions c active ++ assigned_partitions cs active

unfoldable pub assigned_partition_counts : List CopartitionedAssignment → Bool → ℕ → ℕ
assigned_partition_counts cs active partition = count partition (assigned_partitions cs active)

abbrev pub total_assigns_per_partition : CopartitionedAssignor → Bool → ℕ
total_assigns_per_partition s active = if active then 1 else s.replicas

abbrev pub get_client_limit : CopartitionedAssignor → Bool → ℕ
get_client_limit s active = s.max_capacity * total_assigns_per_partition s active

unfoldable pub all_assigned : CopartitionedAssignor → List CopartitionedAssignment → Bool → Bool
all_assigned s cs active =
    all (λ p. assigned_partition_counts cs active p == total_assigns_per_partition s active)
      (range s.num_partitions)

-- `next(assgn for assgn in ... if assgn.partition_assigned(...))`, and the removal from it.
unfoldable pub unassign_first :
    Bool → ℕ → List CopartitionedAssignment → Result (List CopartitionedAssignment)
unassign_first active p [] = err stop_iteration
unassign_first active p (c ∷ cs) =
    if partition_assigned c p active
    then (do c' ← unassign_partition c p active; ok (c' ∷ cs))
    else (do cs' ← unassign_first active p cs; ok (c ∷ cs'))

-- `for _ in range(extras)`
unfoldable pub unassign_times :
    Bool → ℕ → ℕ → List CopartitionedAssignment → Result (List CopartitionedAssignment)
unassign_times active p zero cs = ok cs
unassign_times active p (suc extras) cs = do
  cs' ← unassign_first active p cs
  unassign_times active p extras cs'

-- `for partition in range(...)`, with the counts taken before the loop
unfoldable pub unassign_each :
    Bool
    → (ℕ → ℕ)
    → ℕ
    → List ℕ
    → List CopartitionedAssignment
    → Result (List CopartitionedAssignment)
unassign_each active counts total [] cs = ok cs
unassign_each active counts total (p ∷ ps) cs = do
  cs' ← unassign_times active p (counts p - total) cs
  unassign_each active counts total ps cs'

unfoldable pub unassign_overassigned :
    CopartitionedAssignor
    → Bool
    → List CopartitionedAssignment
    → Result (List CopartitionedAssignment)
unassign_overassigned s active cs =
    unassign_each active (assigned_partition_counts cs active)
      (total_assigns_per_partition s active) (range s.num_partitions) cs

-- `[partition for partition in ... for _ in range(total - counts[partition])]`
unfoldable pub missing : (ℕ → ℕ) → ℕ → List ℕ → List ℕ
missing counts total [] = []
missing counts total (p ∷ ps) = replicate (total - counts p) p ++ missing counts total ps

unfoldable pub get_unassigned :
    CopartitionedAssignor → Bool → List CopartitionedAssignment → Result (List ℕ)
get_unassigned s active cs = do
  let counts = assigned_partition_counts cs active
  let total = total_assigns_per_partition s active
  check (all (λ p. leb (counts p) total) (range s.num_partitions)) assertion_error
  ok (missing counts total (range s.num_partitions))

abbrev pub client_exhausted : CopartitionedAssignor → CopartitionedAssignment → Bool → Bool
client_exhausted s c active = num_assigned c active == get_client_limit s active

abbrev pub assignor_can_assign : CopartitionedAssignor → CopartitionedAssignment → ℕ → Bool → Bool
assignor_can_assign s c partition active =
    not (client_exhausted s c active) && can_assign c partition active

-- The test of the client at a position; every reference is to a client that is there.
abbrev pub at_client : List CopartitionedAssignment → (CopartitionedAssignment → Bool) → ℕ → Bool
at_client cs test i = elim (get_elem? cs i) [ none ↦ false | some c ↦ test c ]

-- `for _ in range(n): assignment = next(candidates); if ...: return assignment`
unfoldable pub find_candidate : (ℕ → Bool) → ℕ → List ℕ → Result (Option ℕ × List ℕ)
find_candidate test zero candidates = ok (none, candidates)
find_candidate test (suc n) [] = err stop_iteration
find_candidate test (suc n) (i ∷ rest) = elim (test i) [
  | true ↦ ok (some i, rest ++ i ∷ [])
  | false ↦ find_candidate test n (rest ++ i ∷ [])
]

abbrev pub promotable : CopartitionedAssignor → ℕ → CopartitionedAssignment → Bool
promotable s partition c =
    partition_assigned c partition false && assignor_can_assign s c partition true

unfoldable pub find_promotable_standby :
    CopartitionedAssignor → List CopartitionedAssignment → ℕ → List ℕ → Result (Option ℕ × List ℕ)
find_promotable_standby s cs partition candidates =
    find_candidate (at_client cs (promotable s partition)) s.num_clients candidates

unfoldable pub find_round_robin_assignable :
    CopartitionedAssignor
    → List CopartitionedAssignment
    → ℕ
    → List ℕ
    → Bool
    → Result (Option ℕ × List ℕ)
find_round_robin_assignable s cs partition candidates active =
    find_candidate (at_client cs (λ c. assignor_can_assign s c partition active)) s.num_clients
      candidates

-- `for _ in range(n): next(candidates)`
unfoldable pub skip : ℕ → List ℕ → Result (List ℕ)
skip zero candidates = ok candidates
skip (suc n) [] = err stop_iteration
skip (suc n) (i ∷ rest) = skip n (rest ++ i ∷ [])

-- A method of the client at a position, with the object written back.
unfoldable pub update_client :
    List CopartitionedAssignment
    → ℕ
    → (CopartitionedAssignment → Result CopartitionedAssignment)
    → Result (List CopartitionedAssignment)
update_client [] i f = err key_error
update_client (c ∷ cs) zero f = do c' ← f c; ok (c' ∷ cs)
update_client (c ∷ cs) (suc i) f = do cs' ← update_client cs i f; ok (c ∷ cs')
