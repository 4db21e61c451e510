-- ===== src/Assignor/Copartition.antt =====
-- `CopartitionedAssignment` of faust/assignor/client_assignment.py: the partitions that one
-- client has for a group of copartitioned topics. A method that changes the object returns it.
use faust.Common.{
  ℕ, ◌*◌, Bool, true, false, not, ◌&&◌, ◌||◌, List, if◌then◌else◌, nat_eq, Result, ok,
  assertion_error, ◌>>=◌, ◌>>◌, check, length, contains, all, any, keep, range, String,
}
use faust.Assignor.Sets.{add, remove, pop, pop_down}

pub record CopartitionedAssignment : Type 0 where
  pub actives : List ℕ
  pub standbys : List ℕ
  pub topics : List String

unfoldable pub validate : CopartitionedAssignment → CopartitionedAssignment
validate a =
    if any (contains a.actives) a.standbys
    then record a { standbys = keep (λ p. not (contains a.actives p)) a.standbys }
    else a

abbrev pub get_assigned_partitions : CopartitionedAssignment → Bool → List ℕ
get_assigned_partitions a active = if active then a.actives else a.standbys

-- The set that `get_assigned_partitions` returns is the object's own: this writes it back.
abbrev pub with_assigned : CopartitionedAssignment → Bool → List ℕ → CopartitionedAssignment
with_assigned a true xs = record a { actives = xs }
with_assigned a false xs = record a { standbys = xs }

abbrev pub num_assigned : CopartitionedAssignment → Bool → ℕ
num_assigned a active = length (get_assigned_partitions a active)

unfoldable pub get_unassigned : CopartitionedAssignment → ℕ → Bool → Result (List ℕ)
get_unassigned a num_partitions active = do
  let partitions = get_assigned_partitions a active
  check (all (contains (range num_partitions)) partitions) assertion_error
  ok (keep (λ p. not (contains partitions p)) (range num_partitions))

unfoldable pub pop_partition :
    (List ℕ → ℕ) → CopartitionedAssignment → Bool → Result (ℕ × CopartitionedAssignment)
pop_partition choose a active = do
  (p, rest) ← pop choose (get_assigned_partitions a active)
  ok (p, with_assigned a active rest)

unfoldable pub unassign_partition :
    CopartitionedAssignment → ℕ → Bool → Result CopartitionedAssignment
unassign_partition a partition active = do
  rest ← remove (get_assigned_partitions a active) partition
  ok (with_assigned a active rest)

unfoldable pub assign_partition : CopartitionedAssignment → ℕ → Bool → CopartitionedAssignment
assign_partition a partition active =
    with_assigned a active (add (get_assigned_partitions a active) partition)

-- The rounds that the two loops are given are the sizes of the sets.
unfoldable pub unassign_extras :
    (List ℕ → ℕ) → CopartitionedAssignment → ℕ → ℕ → Result CopartitionedAssignment
unassign_extras choose a capacity replicas = do
  actives ← pop_down choose (length a.actives) capacity a.actives
  standbys ← pop_down choose (length a.standbys) (capacity * replicas) a.standbys
  ok (record a { actives = actives; standbys = standbys })

abbrev pub partition_assigned : CopartitionedAssignment → ℕ → Bool → Bool
partition_assigned a partition active = contains (get_assigned_partitions a active) partition

unfoldable pub promote_standby_to_active :
    CopartitionedAssignment → ℕ → Result CopartitionedAssignment
promote_standby_to_active a p = do
  check (contains a.standbys p) assertion_error
  standbys ← remove a.standbys p
  ok (record a { actives = add a.actives p; standbys = standbys })

abbrev pub can_assign : CopartitionedAssignment → ℕ → Bool → Bool
can_assign a partition active =
    not (partition_assigned a partition active)
    && (active || not (partition_assigned a partition true))
