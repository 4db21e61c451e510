-- ===== src/Assignor/Copartitioned/Missing.antt =====
-- `_get_unassigned` of `CopartitionedAssignor`: the partitions that lack clients, as often as they lack
-- one.
use faust.Common.{
  ℕ, zero, suc, ◌+◌, ◌-◌, ◌≤◌, ◌<◌, ◌≡◌, refl, Bool, true, List, arith, if◌then◌else◌, nat_eq,
  nat_beq, ok, leb, all, range, range_from, replicate,
}
use faust.Common.Counting.{count, count-append}
use faust.Assignor.Sets.{IsBelow, IsBelow-append}
use faust.Assignor.Copartition.{CopartitionedAssignment}
use faust.Assignor.Copartitioned.{
  CopartitionedAssignor, assigned_partition_counts, total_assigns_per_partition, missing,
  get_unassigned,
}

all_range :
    (test : ℕ → Bool) (start k : ℕ)
    → ((q : ℕ) → start ≤ q → q < start + k → test q ≡ true)
    → all test (range_from start k) ≡ true
all_range test start zero h = refl
all_range test start (suc k) h =
    rw (h start (omega arith) (omega arith))
      (all_range test (suc start) k (λ q a b. h q (omega arith) (omega arith)))

-- A test that every partition of the topic passes.
pub all_partitions :
    (test : ℕ → Bool) (n : ℕ) → ((q : ℕ) → q < n → test q ≡ true) → all test (range n) ≡ true
all_partitions test n h = all_range test 0 n (λ q a b. h q (omega arith))

count-replicate : (q k x : ℕ) → count q (replicate k x) ≡ (if nat_beq x q then k else 0)
unfolding count
count-replicate q zero x = ground arith
count-replicate q (suc k) x = ground (arith, count-replicate q k x)

count-missing :
    (f : ℕ → ℕ) (total start k q : ℕ)
    → (q < start → count q (missing f total (range_from start k)) ≡ 0)
      × (start ≤ q → q < start + k → count q (missing f total (range_from start k)) ≡ total - f q)
unfolding missing count
count-missing f total start zero q = (λ h. refl, λ a b. absurd (omega arith))
count-missing f total start (suc k) q =
    let rest = missing f total (range_from (suc start) k) in
    let both = count-append q (replicate (total - f start) start) rest in
    let own = count-replicate q (total - f start) start in
    let ih = count-missing f total (suc start) k q in
    (λ h. ground (arith, both, own, ih.0), λ a b. ground (arith, both, own, ih.0, ih.1))

IsBelow-replicate : (n k x : ℕ) → x < n → IsBelow n (replicate k x)
IsBelow-replicate n zero x h = tt
IsBelow-replicate n (suc k) x h = (h, IsBelow-replicate n k x h)

IsBelow-missing :
    (f : ℕ → ℕ) (total n start k : ℕ)
    → start + k ≤ n
    → IsBelow n (missing f total (range_from start k))
unfolding missing
IsBelow-missing f total n start zero h = tt
IsBelow-missing f total n start (suc k) h =
    IsBelow-append n (replicate (total - f start) start) _
      (IsBelow-replicate n (total - f start) start (omega arith))
      (IsBelow-missing f total n (suc start) k (omega arith))

-- Where no partition of the topic has more clients than it should have, _get_unassigned returns:
-- it lists each partition of the topic as often as it lacks a client, and lists no other.
pub get_unassigned_lem :
    (s : CopartitionedAssignor) (active : Bool) (cs : List CopartitionedAssignment)
    → ((q : ℕ)
        → q < s.num_partitions
        → assigned_partition_counts cs active q ≤ total_assigns_per_partition s active)
    → (u : List ℕ) × (get_unassigned s active cs ≡ ok u)
      × ((q : ℕ)
          → q < s.num_partitions
          → count q u + assigned_partition_counts cs active q
            ≡ total_assigns_per_partition s active)
      × IsBelow s.num_partitions u
unfolding get_unassigned
get_unassigned_lem s active cs h =
    let n = s.num_partitions in
    let f = assigned_partition_counts cs active in
    let total = total_assigns_per_partition s active in
    (
      missing f total (range n),
      rw (all_partitions (λ p. leb (f p) total) n (λ q a. ground (arith, h q))),
      λ q a. omega (arith, (count-missing f total 0 n q).1 (omega arith) (omega arith), h q a),
      IsBelow-missing f total n 0 n (omega arith),
    )
