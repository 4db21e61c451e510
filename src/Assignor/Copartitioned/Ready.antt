-- ===== src/Assignor/Copartitioned/Ready.antt =====
-- The invariant of the loop that assigns the active partitions.
use faust.Common.{
  ℕ, ◌+◌, ◌<◌, ◌≡◌, ◌∙◌, true, false, not, List, [], ◌∷◌, ◌++◌, arith, nat_eq, length,
  length-append, length-set, All, contains, get_elem?, set, some,
}
use faust.Common.Counting.{count, count-append, contains-count, sum_range_ones, length-eq-sum_count}
use faust.Assignor.Sets.{IsBelow, IsBelow-append, add}
use faust.Assignor.Copartition.{CopartitionedAssignment, assign_partition}
use faust.Assignor.Copartitioned.{CopartitionedAssignor, assigned_partitions, client_exhausted}
use faust.Assignor.Copartitioned.Removal.{Fits}
use faust.Assignor.Copartitioned.Clients.{All-get_elem?, All-set, count-set, count-at-le}

-- Between two rounds: the candidates are the clients, no client has more than its capacity, and
-- each partition of the topic either waits or has one client, and not both.
pub record Ready (s : CopartitionedAssignor) (u candidates : List ℕ)
    (cs : List CopartitionedAssignment) : Type 0 where
  pub turn : length candidates ≡ s.num_clients
  pub every : (i : ℕ) → i < length cs → contains candidates i ≡ true
  pub clients : length cs ≡ s.num_clients
  pub fits : All (Fits s.num_partitions s.max_capacity true) cs
  pub exact : (q : ℕ) → q < s.num_partitions → count q u + count q (assigned_partitions cs true) ≡ 1
  pub below : IsBelow s.num_partitions u

IsBelow-assigned :
    (n cap : ℕ) (cs : List CopartitionedAssignment)
    → All (Fits n cap true) cs
    → IsBelow n (assigned_partitions cs true)
unfolding assigned_partitions
IsBelow-assigned n cap [] h = tt
IsBelow-assigned n cap (c ∷ cs) h =
    IsBelow-append n c.actives _ h.0.1 (IsBelow-assigned n cap cs h.1)

-- What waits and what is assigned make up the topic.
pub Ready-total :
    (s : CopartitionedAssignor) (u candidates : List ℕ) (cs : List CopartitionedAssignment)
    → Ready s u candidates cs
    → length u + length (assigned_partitions cs true) ≡ s.num_partitions
Ready-total s u candidates cs r =
    let n = s.num_partitions in
    omega (
      arith,
      length-eq-sum_count n u r.below,
      length-eq-sum_count n (assigned_partitions cs true)
          (IsBelow-assigned n s.max_capacity cs r.fits),
      sum_range_ones (λ q. count q u) (λ q. count q (assigned_partitions cs true)) 0 n
          (λ q a b. r.exact q (omega arith)),
    )

module _ (s : CopartitionedAssignor) (p : ℕ) (ps candidates : List ℕ)
    (cs : List CopartitionedAssignment) (i : ℕ) (c : CopartitionedAssignment)
    (at : get_elem? cs i ≡ some c) where
  -- A client's standbys are no part of what the loop promises.
  pub Ready-set :
      (c' : CopartitionedAssignment)
      → c'.actives ≡ c.actives
      → Ready s (p ∷ ps) candidates cs
      → Ready s (p ∷ ps) candidates (set cs i c')
  Ready-set c' same r = record {
    turn = r.turn;
    every = λ j h. r.every j (omega (arith, length-set cs i c'));
    clients = length-set cs i c' ∙ r.clients;
    fits = All-set _ cs i c' r.fits (rw same (All-get_elem? _ cs i c r.fits at));
    exact = λ q h. ground (arith, r.exact q h, count-set true q cs i c c' at);
    below = r.below;
  }

  -- A partition that waits is not assigned.
  pub not_assigned : Ready s (p ∷ ps) candidates cs → contains c.actives p ≡ false
  unfolding count
  not_assigned r =
      contains-count p c.actives (ground (arith, r.exact p r.below.0, count-at-le true p cs i c at))

  -- The partition goes to a client that has room.
  pub Ready-give :
      Ready s (p ∷ ps) candidates cs
      → not (client_exhausted s c true) ≡ true
      → Ready s ps candidates (set cs i (assign_partition c p true))
  unfolding assign_partition add count
  Ready-give r room =
      let absent = not_assigned r in
      let own = All-get_elem? _ cs i c r.fits at in
      let c' : CopartitionedAssignment = record c { actives = c.actives ++ p ∷ [] } in
      let own' : Fits s.num_partitions s.max_capacity true c' = (
        ground (arith, own.0, length-append {0} c.actives (p ∷ [])),
        IsBelow-append _ c.actives (p ∷ []) own.1 (r.below.0, tt),
      ) in
      let same : assign_partition c p true ≡ c' = rw absent in
      rw same (record {
        turn = r.turn;
        every = λ j h. r.every j (omega (arith, length-set cs i c'));
        clients = length-set cs i c' ∙ r.clients;
        fits = All-set _ cs i c' r.fits own';
        exact = λ q h.
            ground (
              arith,
              r.exact q h,
              count-set true q cs i c c' at,
              count-append q c.actives (p ∷ []),
            );
        below = r.below.1;
      })
