-- ===== src/Assignor/Copartitioned/Unassign.antt =====
-- What the assignor takes away before it assigns: extras over the capacity, and partitions that
-- several clients have.
use faust.Common.{
  ℕ, zero, suc, ◌+◌, ◌-◌, ◌*◌, ◌≤◌, ◌<◌, ◌≡◌, refl, ap, ◌∙◌, min, Bool, true, List, [], ◌∷◌, arith,
  nat_eq, ok, length, All, range_from,
}
use faust.Common.Counting.{count}
use faust.Assignor.Sets.{IsBelow, pop_down_size}
use faust.Assignor.Copartition.{CopartitionedAssignment, unassign_extras}
use faust.Assignor.Copartitioned.{
  CopartitionedAssignor, assigned_partitions, assigned_partition_counts,
  total_assigns_per_partition, unassign_times, unassign_each, unassign_overassigned,
}
use faust.Assignor.Copartitioned.RoundRobin.{unassign_all_extras}
use faust.Assignor.Copartitioned.Removal.{
  Fits, SameOther, SameOther-refl, SameOther-trans, Removed, unassign_first_lem,
}

unassign_times_lem :
    (active : Bool) (p n cap k : ℕ) (cs : List CopartitionedAssignment)
    → k ≤ count p (assigned_partitions cs active)
    → (cs' : List CopartitionedAssignment) × (unassign_times active p k cs ≡ ok cs')
      × Removed n cap active p k cs cs'
unfolding unassign_times
unassign_times_lem active p n cap zero cs h =
    (cs, refl, (λ q. ground arith, refl, λ f. f, SameOther-refl active cs))
unassign_times_lem active p n cap (suc k) cs h =
    let (cs₁, first, one) = unassign_first_lem active p n cap cs (omega arith) in
    let (cs₂, times, rest) = unassign_times_lem active p n cap k cs₁ (ground (arith, one.0 p)) in
    (
      cs₂,
      rw (first, times),
      (
        λ q. ground (arith, one.0 q, rest.0 q),
        rest.1 ∙ one.1,
        λ f. rest.2 (one.2 f),
        SameOther-trans active cs₂ cs₁ cs rest.3 one.3,
      ),
    )

-- The loop brings every partition of the range down to `total`, and changes no partition before it.
unassign_each_lem :
    (active : Bool) (f : ℕ → ℕ) (total n cap start k : ℕ) (cs : List CopartitionedAssignment)
    → ((q : ℕ) → start ≤ q → q < start + k → count q (assigned_partitions cs active) ≡ f q)
    → (cs' : List CopartitionedAssignment) × (unassign_each active f total (range_from start k) cs
        ≡ ok cs')
      × ((q : ℕ)
          → start ≤ q
          → q < start + k
          → count q (assigned_partitions cs' active) ≡ f q - (f q - total))
      × ((q : ℕ)
          → q < start
          → count q (assigned_partitions cs' active) ≡ count q (assigned_partitions cs active))
      × (length cs' ≡ length cs)
      × (All (Fits n cap active) cs → All (Fits n cap active) cs')
      × SameOther active cs' cs
unfolding unassign_each
unassign_each_lem active f total n cap start zero cs h =
    (cs, refl, λ q a b. absurd (omega arith), λ q a. refl, refl, λ x. x, SameOther-refl active cs)
unassign_each_lem active f total n cap start (suc k) cs h =
    let (cs₁, times, one) =
      unassign_times_lem active start n cap (f start - total) cs
        (omega (arith, h start (omega arith) (omega arith))) in
    let (cs₂, each, inside, before, size, fits, same) =
      unassign_each_lem active f total n cap (suc start) k cs₁
        (λ q a b. ground (arith, one.0 q, h q)) in
    (
      cs₂,
      rw (times, each),
      λ q a b. ground (arith, inside q, before q, one.0 q, h q),
      λ q a. ground (arith, before q, one.0 q),
      size ∙ one.1,
      λ x. fits (one.2 x),
      SameOther-trans active cs₂ cs₁ cs same one.3,
    )

-- Partitions that too many clients have are taken from clients until none is.
pub unassign_overassigned_lem :
    (s : CopartitionedAssignor) (active : Bool) (n cap : ℕ) (cs : List CopartitionedAssignment)
    → (cs' : List CopartitionedAssignment) × (unassign_overassigned s active cs ≡ ok cs')
      × ((q : ℕ)
          → q < s.num_partitions
          → assigned_partition_counts cs' active q
            ≡ min (assigned_partition_counts cs active q) (total_assigns_per_partition s active))
      × (length cs' ≡ length cs)
      × (All (Fits n cap active) cs → All (Fits n cap active) cs')
      × SameOther active cs' cs
unfolding unassign_overassigned assigned_partition_counts
unassign_overassigned_lem s active n cap cs =
    let total = total_assigns_per_partition s active in
    let (cs', each, inside, before, size, fits, same) =
      unassign_each_lem active (λ q. count q (assigned_partitions cs active)) total n cap 0
        s.num_partitions cs (λ q a b. refl) in
    (cs', each, λ q b. omega (arith, inside q (omega arith) (omega arith)), size, fits, same)

-- _unassign_overassigned returns. A partition of the topic that more clients have than it should
-- have is then left with that many, one with no more keeps all it had; and the clients keep their
-- partitions of the other kind, standbys or actives.
pub unassign_overassigned-counts :
    (s : CopartitionedAssignor) (active : Bool) (cs : List CopartitionedAssignment)
    → (cs' : List CopartitionedAssignment) × (unassign_overassigned s active cs ≡ ok cs')
      × ((q : ℕ)
          → q < s.num_partitions
          → assigned_partition_counts cs' active q
            ≡ min (assigned_partition_counts cs active q) (total_assigns_per_partition s active))
      × SameOther active cs' cs
unassign_overassigned-counts s active cs =
    let (cs', run, counts, _, _, same) = unassign_overassigned_lem s active 0 0 cs in
    (cs', run, counts, same)

-- `unassign_extras` on every client succeeds and leaves each at the capacity or below.
pub unassign_all_extras_lem :
    (choose : List ℕ → ℕ) (capacity replicas n : ℕ) (cs : List CopartitionedAssignment)
    → All (λ c. IsBelow n c.actives) cs
    → (cs' : List CopartitionedAssignment) × (unassign_all_extras choose capacity replicas cs
        ≡ ok cs')
      × (length cs' ≡ length cs)
      × All (Fits n capacity true) cs'
unfolding unassign_all_extras unassign_extras
unassign_all_extras_lem choose capacity replicas n [] h = ([], refl, refl, tt)
unassign_all_extras_lem choose capacity replicas n (c ∷ cs) (b, bs) =
    let (actives, down, small, below) =
      pop_down_size choose (length c.actives) capacity n c.actives (omega arith) in
    let (standbys, down', small', below') =
      pop_down_size choose (length c.standbys) (capacity * replicas) n c.standbys (omega arith) in
    let (cs', rest, size, fits) = unassign_all_extras_lem choose capacity replicas n cs bs in
    (
      record c { actives = actives; standbys = standbys } ∷ cs',
      rw (down, down', rest),
      ap suc size,
      ((small, below b), fits),
    )
