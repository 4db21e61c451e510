-- ===== src/Assignor/Copartitioned/RoundRobin.antt =====
-- The main loop of `CopartitionedAssignor`: `_assign_round_robin`, `_assign` and
-- `get_assignment`. The `while` takes fuel.
use faust.Common.{
  ℕ, zero, suc, Bool, true, false, not, ◌&&◌, ◌||◌, List, [], ◌∷◌, ◌++◌, if◌then◌else◌, ◌==◌,
  nat_eq, Result, ok, err, assertion_error, stop_iteration, out_of_fuel, ◌>>=◌, ◌>>◌, check, length,
  all, leb, range, get_elem?, Option, none, some,
}
use faust.Common.Order.{sorted_by}
use faust.Assignor.Copartition.{
  CopartitionedAssignment, num_assigned, pop_partition, unassign_partition, assign_partition,
  unassign_extras, partition_assigned, can_assign,
}
use faust.Assignor.Copartitioned.{
  CopartitionedAssignor, all_assigned, unassign_overassigned, get_unassigned, client_exhausted,
  find_promotable_standby, find_round_robin_assignable, skip, update_client,
}

-- The variables of the loop.
pub record Round : Type 0 where
  pub unassigned : List ℕ
  pub candidates : List ℕ
  pub clients : List CopartitionedAssignment

size_at : List CopartitionedAssignment → Bool → ℕ → ℕ
size_at cs active i = elim (get_elem? cs i) [ none ↦ 0 | some c ↦ num_assigned c active ]

-- `sorted(self._client_assignments.values(), key=lambda x: len(...))`
unfoldable pub candidates_list : List CopartitionedAssignment → Bool → List ℕ
unfolding size_at
candidates_list cs active = sorted_by (size_at cs active) (range (length cs))

-- The standby is promoted: it is no standby of that client any more.
unfoldable pub unassign_promoted :
    Option ℕ → ℕ → List CopartitionedAssignment → Result (List CopartitionedAssignment)
unassign_promoted none p cs = ok cs
unassign_promoted (some i) p cs = update_client cs i (λ c. unassign_partition c p false)

-- The first part of the loop's body: a standby to promote, or the offset of the round robin.
unfoldable pub before_round_robin :
    CopartitionedAssignor
    → Bool
    → ℕ
    → List ℕ
    → List CopartitionedAssignment
    → Result (Option ℕ × List ℕ × List CopartitionedAssignment)
before_round_robin s true p candidates cs = do
  (assign_to, candidates') ← find_promotable_standby s cs p candidates
  cs' ← unassign_promoted assign_to p cs
  ok (assign_to, candidates', cs')
before_round_robin s false p candidates cs = do
  candidates' ← skip p candidates
  ok (none, candidates', cs)

-- `assign_to or self._find_round_robin_assignable(...)`
unfoldable pub or_round_robin :
    CopartitionedAssignor
    → Bool
    → ℕ
    → Option ℕ
    → List ℕ
    → List CopartitionedAssignment
    → Result (Option ℕ × List ℕ)
or_round_robin s active p (some i) candidates cs = ok (some i, candidates)
or_round_robin s active p none candidates cs = find_round_robin_assignable s cs p candidates active

abbrev pub is_filled : CopartitionedAssignor → Bool → ℕ → CopartitionedAssignment → Bool
is_filled s active p c =
    partition_assigned c p true || partition_assigned c p false || client_exhausted s c active

-- The first client that is full and can take the partition.
unfoldable pub first_full :
    CopartitionedAssignor → Bool → ℕ → ℕ → List CopartitionedAssignment → Result ℕ
first_full s active p i [] = err stop_iteration
first_full s active p i (c ∷ cs) =
    if client_exhausted s c active && can_assign c p active
    then ok i
    else first_full s active p (suc i) cs

-- `assign_to.pop_partition(active)` on the client at a position
unfoldable pub pop_from :
    (List ℕ → ℕ)
    → Bool
    → List CopartitionedAssignment
    → ℕ
    → Result (ℕ × List CopartitionedAssignment)
pop_from choose active [] i = err stop_iteration
pop_from choose active (c ∷ cs) zero = do (q, c') ← pop_partition choose c active; ok (q, c' ∷ cs)
pop_from choose active (c ∷ cs) (suc i) = do (q, cs') ← pop_from choose active cs i; ok (q, c ∷ cs')

-- The assertion, and the place that is freed where the round robin found none.
unfoldable pub or_free_up :
    (List ℕ → ℕ)
    → CopartitionedAssignor
    → Bool
    → ℕ
    → Option ℕ
    → List ℕ
    → List CopartitionedAssignment
    → Result (ℕ × List ℕ × List CopartitionedAssignment)
or_free_up choose s active p (some i) unassigned cs = ok (i, unassigned, cs)
or_free_up choose s active p none unassigned cs = do
  check (not active && all (is_filled s active p) cs) assertion_error
  i ← first_full s active p 0 cs
  (q, cs') ← pop_from choose active cs i
  ok (i, unassigned ++ q ∷ [], cs')

-- The body of the loop, for the partition that was taken from `unassigned`.
unfoldable pub assign_one :
    (List ℕ → ℕ)
    → CopartitionedAssignor
    → Bool
    → ℕ
    → List ℕ
    → List ℕ
    → List CopartitionedAssignment
    → Result Round
assign_one choose s active p unassigned candidates cs = do
  (promoted, candidates₁, cs₁) ← before_round_robin s active p candidates cs
  (found, candidates₂) ← or_round_robin s active p promoted candidates₁ cs₁
  (i, unassigned', cs₂) ← or_free_up choose s active p found unassigned cs₁
  cs₃ ← update_client cs₂ i (λ c. ok (assign_partition c p active))
  ok (record { unassigned = unassigned'; candidates = candidates₂; clients = cs₃ })

-- `while unassigned`
unfoldable pub assign_loop :
    (List ℕ → ℕ)
    → CopartitionedAssignor
    → Bool
    → ℕ
    → List ℕ
    → List ℕ
    → List CopartitionedAssignment
    → Result (List CopartitionedAssignment)
assign_loop choose s active fuel [] candidates cs = ok cs
assign_loop choose s active zero (p ∷ ps) candidates cs = err out_of_fuel
assign_loop choose s active (suc fuel) (p ∷ ps) candidates cs = do
  r ← assign_one choose s active p ps candidates cs
  assign_loop choose s active fuel r.unassigned r.candidates r.clients

unfoldable pub assign_round_robin :
    (List ℕ → ℕ)
    → ℕ
    → CopartitionedAssignor
    → Bool
    → List ℕ
    → List CopartitionedAssignment
    → Result (List CopartitionedAssignment)
assign_round_robin choose fuel s active unassigned cs =
    assign_loop choose s active fuel unassigned (candidates_list cs active) cs

unfoldable pub assign :
    (List ℕ → ℕ)
    → ℕ
    → CopartitionedAssignor
    → Bool
    → List CopartitionedAssignment
    → Result (List CopartitionedAssignment)
assign choose fuel s active cs = do
  cs₁ ← unassign_overassigned s active cs
  unassigned ← get_unassigned s active cs₁
  cs₂ ← assign_round_robin choose fuel s active unassigned cs₁
  check (all_assigned s cs₂ active) assertion_error
  ok cs₂

unfoldable pub start_capacity : CopartitionedAssignor → ℕ
start_capacity s =
    if s.replicas == 0 && (leb 1 s.num_partitions && leb s.num_clients s.num_partitions)
    then s.min_capacity
    else s.max_capacity

unfoldable pub unassign_all_extras :
    (List ℕ → ℕ) → ℕ → ℕ → List CopartitionedAssignment → Result (List CopartitionedAssignment)
unassign_all_extras choose capacity replicas [] = ok []
unassign_all_extras choose capacity replicas (c ∷ cs) = do
  c' ← unassign_extras choose c capacity replicas
  cs' ← unassign_all_extras choose capacity replicas cs
  ok (c' ∷ cs')

unfoldable pub get_assignment :
    (List ℕ → ℕ) → ℕ → CopartitionedAssignor → Result CopartitionedAssignor
get_assignment choose fuel s = do
  cs₁ ← unassign_all_extras choose (start_capacity s) s.replicas s.client_assignments
  cs₂ ← assign choose fuel s true cs₁
  cs₃ ← assign choose fuel s false cs₂
  ok (record s { client_assignments = cs₃ })
