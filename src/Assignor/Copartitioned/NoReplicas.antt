-- ===== src/Assignor/Copartitioned/NoReplicas.antt =====
-- The constructor of `CopartitionedAssignor`, and a whole run of `get_assignment` where no
-- replicas are wanted.
use faust.Common.{
  ℕ, ◌-◌, ◌*◌, ◌/◌, ◌≤◌, ◌<◌, min, ◌≡◌, refl, ◌∙◌, true, false, List, [], ◌∷◌, arith, ◌==◌, nat_eq,
  ok, length, All, none, String,
}
use faust.Common.Counting.{count}
use faust.Assignor.Sets.{IsBelow}
use faust.Assignor.Copartition.{CopartitionedAssignment}
use faust.Assignor.Copartitioned.{
  CopartitionedAssignor, assigned_partitions, assigned_partition_counts, all_assigned, init,
  ceil_div,
}
use faust.Assignor.Copartitioned.RoundRobin.{
  assign_round_robin, assign, assign_loop, start_capacity, get_assignment,
}
use faust.Assignor.Copartitioned.Removal.{SameOther, Fits}
use faust.Assignor.Copartitioned.Unassign.{unassign_overassigned_lem, unassign_all_extras_lem}
use faust.Assignor.Copartitioned.Missing.{get_unassigned_lem, all_partitions}
use faust.Assignor.Copartitioned.Balance.{IsBalanced, assign-IsBalanced}

abbrev Clients : Type 0
Clients = List CopartitionedAssignment

le-ceil_div : (n k : ℕ) → 0 < k → n ≤ ceil_div n k * k
le-ceil_div n k h = grind arith

floor-le-ceil : (n k : ℕ) → 0 < k → n / k ≤ ceil_div n k
floor-le-ceil n k h = grind arith

-- The default capacities hold the topic, for any number of clients but none.
pub init_default :
    (topics : List String) (cs : Clients) (n replicas : ℕ)
    → 0 < length cs
    → (s : CopartitionedAssignor) × (init topics cs n replicas none ≡ ok s)
      × (s.client_assignments ≡ cs)
      × (s.num_clients ≡ length cs)
      × (s.num_partitions ≡ n)
      × (s.replicas ≡ min replicas (length cs - 1))
      × (s.num_partitions ≤ s.max_capacity * s.num_clients)
      × (s.min_capacity ≤ s.max_capacity)
unfolding init
init_default topics cs n replicas h = (
  record {
    max_capacity = ceil_div n (length cs);
    min_capacity = n / length cs;
    num_partitions = n;
    replicas = min replicas (length cs - 1);
    topics = topics;
    num_clients = length cs;
    client_assignments = cs;
  },
  ground (arith, le-ceil_div n (length cs) h),
  refl,
  refl,
  refl,
  refl,
  le-ceil_div n (length cs) h,
  floor-le-ceil n (length cs) h,
)

-- Without replicas nothing is missing for standbys.
none_missing : (n : ℕ) (u : List ℕ) → IsBelow n u → ((q : ℕ) → q < n → count q u ≡ 0) → u ≡ []
unfolding count
none_missing n [] b h = refl
none_missing n (x ∷ xs) b h = absurd (ground (arith, h x b.0))

Fits-SameOther :
    (n cap : ℕ) (cs' cs : Clients)
    → SameOther false cs' cs
    → All (Fits n cap true) cs
    → All (Fits n cap true) cs'
Fits-SameOther n cap [] [] h f = tt
Fits-SameOther n cap [] (c ∷ cs) h f = elim h [ ]
Fits-SameOther n cap (c' ∷ cs') [] h f = elim h [ ]
Fits-SameOther n cap (c' ∷ cs') (c ∷ cs) h f = (rw h.0 f.0, Fits-SameOther n cap cs' cs h.1 f.1)

assigned-SameOther :
    (cs' cs : Clients)
    → SameOther false cs' cs
    → assigned_partitions cs' true ≡ assigned_partitions cs true
unfolding assigned_partitions
assigned-SameOther [] [] h = refl
assigned-SameOther [] (c ∷ cs) h = elim h [ ]
assigned-SameOther (c' ∷ cs') [] h = elim h [ ]
assigned-SameOther (c' ∷ cs') (c ∷ cs) h = rw (h.0, assigned-SameOther cs' cs h.1)

IsBalanced-SameOther :
    (s : CopartitionedAssignor) (cs' cs : Clients)
    → SameOther false cs' cs
    → length cs' ≡ length cs
    → IsBalanced s cs
    → IsBalanced s cs'
unfolding assigned_partition_counts
IsBalanced-SameOther s cs' cs h size b = record {
  exact = λ q a. rw (assigned-SameOther cs' cs h) (b.exact q a);
  fits = Fits-SameOther s.num_partitions s.max_capacity cs' cs h b.fits;
  clients = size ∙ b.clients;
}

-- `_assign(active=False)` without replicas takes every standby away and leaves the actives.
assign_standbys :
    (choose : List ℕ → ℕ) (fuel : ℕ) (s : CopartitionedAssignor) (cs : Clients)
    → s.replicas ≡ 0
    → IsBalanced s cs
    → (cs' : Clients) × (assign choose fuel s false cs ≡ ok cs')
      × IsBalanced s cs'
      × ((q : ℕ) → q < s.num_partitions → assigned_partition_counts cs' false q ≡ 0)
unfolding assign assign_round_robin assign_loop all_assigned
assign_standbys choose fuel s cs none_wanted b =
    let (cs₁, over, counts, size, _, same) =
      unassign_overassigned_lem s false s.num_partitions s.max_capacity cs in
    let gone : (q : ℕ) → q < s.num_partitions → assigned_partition_counts cs₁ false q ≡ 0 =
      λ q h. omega (arith, counts q h) in
    let (u, found, lack, below) =
      get_unassigned_lem s false cs₁ (λ q h. omega (arith, counts q h)) in
    let nothing = none_missing s.num_partitions u below (λ q h. omega (arith, lack q h)) in
    let done =
      all_partitions (λ q. assigned_partition_counts cs₁ false q == s.replicas) s.num_partitions
        (λ q h. ground (arith, gone q h)) in
    (cs₁, rw (over, found, nothing, done), IsBalanced-SameOther s cs₁ cs same size b, gone)

Fits-mono :
    (n cap cap' : ℕ) (cs : Clients)
    → cap ≤ cap'
    → All (Fits n cap true) cs
    → All (Fits n cap' true) cs
Fits-mono n cap cap' [] h f = tt
Fits-mono n cap cap' (c ∷ cs) h f = ((omega arith, f.0.1), Fits-mono n cap cap' cs h f.1)

start_capacity-le :
    (s : CopartitionedAssignor)
    → s.min_capacity ≤ s.max_capacity
    → start_capacity s ≤ s.max_capacity
unfolding start_capacity
start_capacity-le s h = ground arith

get_assignment-IsBalanced :
    (choose : List ℕ → ℕ) (s : CopartitionedAssignor)
    → s.replicas ≡ 0
    → length s.client_assignments ≡ s.num_clients
    → s.num_partitions ≤ s.max_capacity * s.num_clients
    → s.min_capacity ≤ s.max_capacity
    → All (λ c. IsBelow s.num_partitions c.actives) s.client_assignments
    → (cs : Clients) × (get_assignment choose s.num_partitions s
        ≡ ok (record s { client_assignments = cs }))
      × IsBalanced s cs
      × ((q : ℕ) → q < s.num_partitions → assigned_partition_counts cs false q ≡ 0)
unfolding get_assignment
get_assignment-IsBalanced choose s none_wanted size places floors inside =
    let n = s.num_partitions in
    let (cs₁, extras, size₁, fit) =
      unassign_all_extras_lem choose (start_capacity s) s.replicas n s.client_assignments inside in
    let fit' = Fits-mono n (start_capacity s) s.max_capacity cs₁ (start_capacity-le s floors) fit in
    let (cs₂, actives, b) =
      assign-IsBalanced choose n s cs₁ (omega arith) (size₁ ∙ size) places fit' in
    let (cs₃, standbys, b', gone) = assign_standbys choose n s cs₂ none_wanted b in
    (cs₃, rw (extras, actives, standbys), b', gone)

-- With at least one client, the default capacities, no replicas, and clients that have only
-- partitions of the topic, the constructor and get_assignment return: every partition gets exactly
-- one client, no client gets more than ceil(partitions / clients), and no standby of the topic is
-- left.
pub get_assignment-no_replicas :
    (choose : List ℕ → ℕ) (topics : List String) (cs : Clients) (n : ℕ)
    → 0 < length cs
    → All (λ c. IsBelow n c.actives) cs
    → (s s' : CopartitionedAssignor) × (init topics cs n 0 none ≡ ok s)
      × (get_assignment choose n s ≡ ok s')
      × ((q : ℕ) → q < n → assigned_partition_counts s'.client_assignments true q ≡ 1)
      × All (λ c. length c.actives ≤ ceil_div n (length cs)) s'.client_assignments
      × ((q : ℕ) → q < n → assigned_partition_counts s'.client_assignments false q ≡ 0)
unfolding init
get_assignment-no_replicas choose topics cs n some_client inside =
    let cap = ceil_div n (length cs) in
    let s : CopartitionedAssignor = record {
      max_capacity = cap;
      min_capacity = n / length cs;
      num_partitions = n;
      replicas = min 0 (length cs - 1);
      topics = topics;
      num_clients = length cs;
      client_assignments = cs;
    } in
    let places = le-ceil_div n (length cs) some_client in
    let (cs', run, b, gone) =
      get_assignment-IsBalanced choose s (omega arith) refl places
        (floor-le-ceil n (length cs) some_client) inside in
    (
      s,
      record s { client_assignments = cs' },
      ground (arith, places),
      run,
      b.exact,
      within cs' b.fits,
      gone,
    )
  where
    within :
        (xs : Clients)
        → All (Fits n (ceil_div n (length cs)) true) xs
        → All (λ c. length c.actives ≤ ceil_div n (length cs)) xs
    within [] f = tt
    within (x ∷ xs) f = (f.0.0, within xs f.1)
