-- ===== src/Assignor/Copartitioned/Balance.antt =====
-- What `_assign` and `get_assignment` promise about the active partitions.
use faust.Common.{
  ℕ, ◌+◌, ◌*◌, ◌≤◌, ◌<◌, ◌≡◌, ◌∙◌, true, List, [], arith, ◌==◌, nat_eq, ok, length, All, range,
}
use faust.Common.Counting.{count}
use faust.Common.Order.{length-sorted_by, contains-sorted_by, length-range, contains-range}
use faust.Assignor.Sets.{IsBelow}
use faust.Assignor.Copartition.{CopartitionedAssignment}
use faust.Assignor.Copartitioned.{CopartitionedAssignor, assigned_partition_counts, all_assigned}
use faust.Assignor.Copartitioned.RoundRobin.{candidates_list, assign_round_robin, assign}
use faust.Assignor.Copartitioned.Removal.{Fits}
use faust.Assignor.Copartitioned.Unassign.{unassign_overassigned_lem}
use faust.Assignor.Copartitioned.Missing.{get_unassigned_lem, all_partitions}
use faust.Assignor.Copartitioned.Ready.{Ready, Ready-total}
use faust.Assignor.Copartitioned.Actives.{assign_loop-Ready}

abbrev Clients : Type 0
Clients = List CopartitionedAssignment

-- Every partition of the topic has exactly one client, and no client is over its capacity.
pub record IsBalanced (s : CopartitionedAssignor) (cs : Clients) : Type 0 where
  pub exact : (q : ℕ) → q < s.num_partitions → assigned_partition_counts cs true q ≡ 1
  pub fits : All (Fits s.num_partitions s.max_capacity true) cs
  pub clients : length cs ≡ s.num_clients

-- Nothing waits: the partitions have their clients, and the last assertion holds.
Ready-IsBalanced :
    (s : CopartitionedAssignor) (zs : List ℕ) (cs : Clients) → Ready s [] zs cs → IsBalanced s cs
unfolding assigned_partition_counts count
Ready-IsBalanced s zs cs r = record {
  exact = λ q h. omega (arith, r.exact q h);
  fits = r.fits;
  clients = r.clients;
}

IsBalanced-all_assigned :
    (s : CopartitionedAssignor) (cs : Clients) → IsBalanced s cs → all_assigned s cs true ≡ true
unfolding all_assigned
IsBalanced-all_assigned s cs b =
    all_partitions (λ q. assigned_partition_counts cs true q == 1) s.num_partitions
      (λ q h. ground (arith, b.exact q h))

-- The candidates are all clients.
Ready-start :
    (s : CopartitionedAssignor) (u : List ℕ) (cs : Clients)
    → length cs ≡ s.num_clients
    → All (Fits s.num_partitions s.max_capacity true) cs
    → ((q : ℕ) → q < s.num_partitions → count q u + assigned_partition_counts cs true q ≡ 1)
    → IsBelow s.num_partitions u
    → Ready s u (candidates_list cs true) cs
unfolding candidates_list assigned_partition_counts
Ready-start s u cs size fit lack below = record {
  turn = length-sorted_by _ (range (length cs)) ∙ length-range (length cs) ∙ size;
  every = λ i h. contains-sorted_by _ i (range (length cs)) ∙ contains-range (length cs) i h;
  clients = size;
  fits = fit;
  exact = lack;
  below = below;
}

-- Where the clients are as many as the assignor says, their capacities hold all partitions, and
-- none of them has partitions beyond the topic or more than its capacity, _assign(active=True)
-- returns, with as much fuel as there are partitions: no assertion fails and no `next` is
-- exhausted. It leaves every partition with exactly one client, and no client over its capacity.
pub assign-IsBalanced :
    (choose : List ℕ → ℕ) (fuel : ℕ) (s : CopartitionedAssignor) (cs : Clients)
    → s.num_partitions ≤ fuel
    → length cs ≡ s.num_clients
    → s.num_partitions ≤ s.max_capacity * s.num_clients
    → All (Fits s.num_partitions s.max_capacity true) cs
    → (cs' : Clients) × (assign choose fuel s true cs ≡ ok cs') × IsBalanced s cs'
unfolding assign assign_round_robin
assign-IsBalanced choose fuel s cs enough size places fit =
    let (cs₁, over, counts, size₁, fits₁, _) =
      unassign_overassigned_lem s true s.num_partitions s.max_capacity cs in
    let (u, found, lack, below) =
      get_unassigned_lem s true cs₁ (λ q h. omega (arith, counts q h)) in
    let r = Ready-start s u cs₁ (size₁ ∙ size) (fits₁ fit) lack below in
    let (cs₂, loop, (zs, last)) =
      assign_loop-Ready choose s fuel u (candidates_list cs₁ true) cs₁
        (omega (arith, Ready-total s u (candidates_list cs₁ true) cs₁ r)) r places in
    let b = Ready-IsBalanced s zs cs₂ last in
    (cs₂, rw (over, found, loop, IsBalanced-all_assigned s cs₂ b), b)
