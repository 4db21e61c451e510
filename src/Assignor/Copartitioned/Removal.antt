-- ===== src/Assignor/Copartitioned/Removal.antt =====
-- Taking one partition away from a client, and from the first client that has it.
use faust.Common.{
  ℕ, suc, ◌+◌, ◌≤◌, ◌<◌, ◌≡◌, refl, ap, ◌∙◌, Bool, true, false, not, List, [], ◌∷◌, arith,
  if◌then◌else◌, nat_eq, nat_beq, ok, length, All, Bool-cases, inl, inr,
}
use faust.Common.Counting.{count, one_if, count-append, count_of_contains, count_of_absent}
use faust.Assignor.Sets.{IsBelow, count-remove}
use faust.Assignor.Copartition.{
  CopartitionedAssignment, get_assigned_partitions, num_assigned, unassign_partition,
  partition_assigned,
}
use faust.Assignor.Copartitioned.{assigned_partitions, unassign_first}

-- A client's share of one kind lies in the topic and is no larger than the capacity.
abbrev pub Fits : ℕ → ℕ → Bool → CopartitionedAssignment → Type 0
Fits n cap active c = (num_assigned c active ≤ cap) × IsBelow n (get_assigned_partitions c active)

pub unassign_partition_lem :
    (active : Bool) (p n : ℕ) (c : CopartitionedAssignment)
    → 0 < count p (get_assigned_partitions c active)
    → (c' : CopartitionedAssignment) × (unassign_partition c p active ≡ ok c')
      × (suc (num_assigned c' active) ≡ num_assigned c active)
      × ((q : ℕ)
          → count q (get_assigned_partitions c' active) + one_if (nat_beq p q)
            ≡ count q (get_assigned_partitions c active))
      × (IsBelow n (get_assigned_partitions c active)
          → IsBelow n (get_assigned_partitions c' active))
      × (get_assigned_partitions c' (not active) ≡ get_assigned_partitions c (not active))
unfolding unassign_partition
unassign_partition_lem true p n c h =
    let (ys, removed, size, counts, below) = count-remove p n c.actives h in
    (record c { actives = ys }, rw removed, size, counts, below, refl)
unassign_partition_lem false p n c h =
    let (ys, removed, size, counts, below) = count-remove p n c.standbys h in
    (record c { standbys = ys }, rw removed, size, counts, below, refl)

-- Client by client, the shares of the other kind are the same.
abbrev pub SameOther : Bool → List CopartitionedAssignment → List CopartitionedAssignment → Type 0
SameOther active [] [] = Unit
SameOther active [] (c ∷ cs) = ⊥
SameOther active (c' ∷ cs') [] = ⊥
SameOther active (c' ∷ cs') (c ∷ cs) =
    (get_assigned_partitions c' (not active) ≡ get_assigned_partitions c (not active))
    × SameOther active cs' cs

pub SameOther-refl : (active : Bool) (cs : List CopartitionedAssignment) → SameOther active cs cs
SameOther-refl active [] = tt
SameOther-refl active (c ∷ cs) = (refl, SameOther-refl active cs)

pub SameOther-trans :
    (active : Bool) (xs bs cs : List CopartitionedAssignment)
    → SameOther active xs bs
    → SameOther active bs cs
    → SameOther active xs cs
SameOther-trans active [] [] [] h k = tt
SameOther-trans active [] [] (c ∷ cs) h k = elim k [ ]
SameOther-trans active [] (b ∷ bs) cs h k = elim h [ ]
SameOther-trans active (a ∷ xs) [] cs h k = elim h [ ]
SameOther-trans active (a ∷ xs) (b ∷ bs) [] h k = elim k [ ]
SameOther-trans active (a ∷ xs) (b ∷ bs) (c ∷ cs) h k =
    (h.0 ∙ k.0, SameOther-trans active xs bs cs h.1 k.1)

-- What taking a partition away k times leaves of the clients
abbrev pub Removed :
    ℕ → ℕ → Bool → ℕ → ℕ → List CopartitionedAssignment → List CopartitionedAssignment → Type 0
Removed n cap active p k cs cs' =
    ((q : ℕ)
      → count q (assigned_partitions cs' active) + (if nat_beq p q then k else 0)
        ≡ count q (assigned_partitions cs active))
    × (length cs' ≡ length cs)
    × (All (Fits n cap active) cs → All (Fits n cap active) cs')
    × SameOther active cs' cs

-- `next` finds a client while the partition is counted more than zero times.
pub unassign_first_lem :
    (active : Bool) (p n cap : ℕ) (cs : List CopartitionedAssignment)
    → 0 < count p (assigned_partitions cs active)
    → (cs' : List CopartitionedAssignment) × (unassign_first active p cs ≡ ok cs')
      × Removed n cap active p 1 cs cs'
unfolding unassign_first assigned_partitions count
unassign_first_lem active p n cap [] h = absurd (omega arith)
unassign_first_lem active p n cap (c ∷ cs) h = elim (Bool-cases (partition_assigned c p active)) [
  | inl here ↦
      let own = get_assigned_partitions c active in
      let (c', removed, size, counts, below, same) =
        unassign_partition_lem active p n c (count_of_contains p own here) in
      (
        c' ∷ cs,
        rw (here, removed),
        (
          λ q. ground (
            arith,
            counts q,
            count-append q (get_assigned_partitions c' active) (assigned_partitions cs active),
            count-append q own (assigned_partitions cs active),
          ),
          refl,
          λ (f, fs). ((omega arith, below f.1), fs),
          (same, SameOther-refl active cs),
        ),
      )
  | inr there ↦
      let own = get_assigned_partitions c active in
      let absent = count_of_absent p own there in
      let (cs', removed, rest) =
        unassign_first_lem active p n cap cs
          (omega (arith, count-append p own (assigned_partitions cs active))) in
      (
        c ∷ cs',
        rw (there, removed),
        (
          λ q. ground (
            arith,
            rest.0 q,
            count-append q own (assigned_partitions cs' active),
            count-append q own (assigned_partitions cs active),
          ),
          ap suc rest.1,
          λ (f, fs). (f, rest.2 fs),
          (refl, rest.3),
        ),
      )
]
