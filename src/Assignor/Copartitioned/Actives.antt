-- ===== src/Assignor/Copartitioned/Actives.antt =====
-- The assignment of active partitions: `_assign(active=True)` and the loop below it.
use faust.Common.{
  ℕ, zero, suc, ◌*◌, ◌≤◌, ◌<◌, ◌≡◌, refl, ap, ◌∙◌, Bool, true, false, not, List, [], ◌∷◌, arith,
  nat_eq, ok, length, contains, inl, inr, get_elem?, set, none, some, Option-cases,
}
use faust.Common.Counting.{count_of_contains}
use faust.Assignor.Copartition.{CopartitionedAssignment, unassign_partition, assign_partition}
use faust.Assignor.Copartitioned.{
  CopartitionedAssignor, at_client, find_promotable_standby, find_round_robin_assignable,
  promotable, assignor_can_assign, client_exhausted,
}
use faust.Assignor.Copartitioned.RoundRobin.{
  unassign_promoted, before_round_robin, or_round_robin, or_free_up, assign_one, assign_loop,
}
use faust.Assignor.Copartitioned.Removal.{unassign_partition_lem}
use faust.Assignor.Copartitioned.Candidates.{find_candidate_lem}
use faust.Assignor.Copartitioned.Clients.{
  update_client-set, get_elem?-set_self, get_elem?-lt, has_room,
}
use faust.Assignor.Copartitioned.Ready.{Ready, Ready-set, Ready-give, Ready-total, not_assigned}

abbrev Clients : Type 0
Clients = List CopartitionedAssignment

at_client-true :
    (cs : Clients) (test : CopartitionedAssignment → Bool) (i : ℕ)
    → at_client cs test i ≡ true
    → (c : CopartitionedAssignment) × (get_elem? cs i ≡ some c) × (test c ≡ true)
at_client-true cs test i h = elim (Option-cases (get_elem? cs i)) [
  | inl e ↦ absurd (ground arith)
  | inr (c, e) ↦ (c, e, ground arith)
]

abbrev HasRoom : CopartitionedAssignor → CopartitionedAssignment → Type 0
HasRoom s c = not (client_exhausted s c true) ≡ true

module _ (s : CopartitionedAssignor) (p : ℕ) (c : CopartitionedAssignment) where
  promotable-standby : promotable s p c ≡ true → contains c.standbys p ≡ true
  promotable-standby h = ground arith

  promotable-HasRoom : promotable s p c ≡ true → HasRoom s c
  promotable-HasRoom h = ground arith

  can_assign-HasRoom : assignor_can_assign s c p true ≡ true → HasRoom s c
  can_assign-HasRoom h = ground arith

  HasRoom-same :
      (c' : CopartitionedAssignment) → c'.actives ≡ c.actives → HasRoom s c → HasRoom s c'
  HasRoom-same c' e h = rw e h

  -- A client below its capacity that lacks the partition passes the test.
  can_assign_of_lt :
      length c.actives < s.max_capacity
      → contains c.actives p ≡ false
      → assignor_can_assign s c p true ≡ true
  can_assign_of_lt h e = ground arith

module _ (choose : List ℕ → ℕ) (s : CopartitionedAssignor) (p : ℕ) (ps : List ℕ) where
  abbrev Done : List ℕ → Clients → Type 0
  Done candidates cs =
      (candidates' : List ℕ) × (cs' : Clients) × (assign_one choose s true p ps candidates cs
        ≡ ok (record { unassigned = ps; candidates = candidates'; clients = cs' }))
      × Ready s ps candidates' cs'

  -- A standby with room is promoted.
  assign_promoted :
      (candidates zs : List ℕ) (cs : Clients) (i : ℕ) (c : CopartitionedAssignment)
      → Ready s (p ∷ ps) zs cs
      → find_promotable_standby s cs p candidates ≡ ok (some i, zs)
      → get_elem? cs i ≡ some c
      → promotable s p c ≡ true
      → Done candidates cs
  unfolding assign_one before_round_robin unassign_promoted or_round_robin or_free_up
  assign_promoted candidates zs cs i c r found at test =
      let (c', removed, _, _, _, same) =
        unassign_partition_lem false p s.num_partitions c
          (count_of_contains p c.standbys (promotable-standby s p c test)) in
      let at' = get_elem?-set_self cs i c c' at in
      let r' = Ready-set s p ps zs cs i c at c' same r in
      (
        zs,
        set (set cs i c') i (assign_partition c' p true),
        rw (
          found,
          update_client-set cs i (λ d. unassign_partition d p false) c c' at removed,
          update_client-set (set cs i c') i (λ d. ok (assign_partition d p true)) c' _ at' refl,
        ),
        Ready-give s p ps zs (set cs i c') i c' at' r'
            (HasRoom-same s p c c' same (promotable-HasRoom s p c test)),
      )

  -- No standby can be promoted, and the round robin finds a client.
  assign_turned :
      (candidates zs ys : List ℕ) (cs : Clients) (i : ℕ) (c : CopartitionedAssignment)
      → Ready s (p ∷ ps) ys cs
      → find_promotable_standby s cs p candidates ≡ ok (none, zs)
      → find_round_robin_assignable s cs p zs true ≡ ok (some i, ys)
      → get_elem? cs i ≡ some c
      → assignor_can_assign s c p true ≡ true
      → Done candidates cs
  unfolding assign_one before_round_robin unassign_promoted or_round_robin or_free_up
  assign_turned candidates zs ys cs i c r found turned at test = (
    ys,
    set cs i (assign_partition c p true),
    rw (found, turned, update_client-set cs i (λ d. ok (assign_partition d p true)) c _ at refl),
    Ready-give s p ps ys cs i c at r (can_assign-HasRoom s p c test),
  )

  Ready-turn :
      (zs ys : List ℕ) (cs : Clients)
      → length ys ≡ length zs
      → ((j : ℕ) → contains ys j ≡ contains zs j)
      → Ready s (p ∷ ps) zs cs
      → Ready s (p ∷ ps) ys cs
  Ready-turn zs ys cs size same r = record {
    turn = size ∙ r.turn;
    every = λ i h. same i ∙ r.every i h;
    clients = r.clients;
    fits = r.fits;
    exact = r.exact;
    below = r.below;
  }

  -- A full turn cannot fail: fewer partitions are assigned than there are places.
  turn-ne-none :
      (zs : List ℕ) (cs : Clients)
      → Ready s (p ∷ ps) zs cs
      → s.num_partitions ≤ s.max_capacity * s.num_clients
      → ¬ (
          (i : ℕ)
          → contains zs i ≡ true
          → at_client cs (λ c. assignor_can_assign s c p true) i ≡ false)
  turn-ne-none zs cs r enough miss =
      let total = Ready-total s (p ∷ ps) zs cs r in
      let places : s.max_capacity * length cs ≡ s.max_capacity * s.num_clients =
        ap (λ n. s.max_capacity * n) r.clients in
      let (i, c, at, room) = has_room s.max_capacity cs (omega (arith, total, places)) in
      let passed = can_assign_of_lt s p c room (not_assigned s p ps zs cs i c at r) in
      let failed = miss i (r.every i (get_elem?-lt cs i c at)) in cc (at, passed, failed)

  -- One round assigns its partition, whichever way it finds the client.
  pub assign_one-Ready :
      (candidates : List ℕ) (cs : Clients)
      → Ready s (p ∷ ps) candidates cs
      → s.num_partitions ≤ s.max_capacity * s.num_clients
      → Done candidates cs
  unfolding find_promotable_standby find_round_robin_assignable
  assign_one-Ready candidates cs r enough =
      let (o, zs, found, hit, _, size, same) =
        find_candidate_lem (at_client cs (promotable s p)) s.num_clients candidates r.turn in
      let test = at_client cs (λ c. assignor_can_assign s c p true) in
      let r₁ = Ready-turn candidates zs cs size same r in
      let (o', ys, turned, hit', miss, size', same') =
        find_candidate_lem test s.num_clients zs r₁.turn in
      let r₂ = Ready-turn zs ys cs size' same' r₁ in
      elim (Option-cases o) [
        | inr (i, e) ↦
            let (c, at, passed) = at_client-true cs (promotable s p) i (hit i e) in
            assign_promoted candidates zs cs i c r₁ (rw e at found) at passed
        | inl e ↦ elim (Option-cases o') [
          | inr (i, e') ↦
              let (c, at, passed) =
                at_client-true cs (λ d. assignor_can_assign s d p true) i (hit' i e') in
              assign_turned candidates zs ys cs i c r₂ (rw e at found) (rw e' at turned) at passed
          | inl e' ↦ absurd (turn-ne-none zs cs r₁ enough (miss e'))
        ]
      ]

-- The loop ends within as many rounds as partitions wait.
pub assign_loop-Ready :
    (choose : List ℕ → ℕ) (s : CopartitionedAssignor) (fuel : ℕ) (u candidates : List ℕ)
    (cs : Clients)
    → length u ≤ fuel
    → Ready s u candidates cs
    → s.num_partitions ≤ s.max_capacity * s.num_clients
    → (cs' : Clients) × (assign_loop choose s true fuel u candidates cs ≡ ok cs')
      × ((zs : List ℕ) × Ready s [] zs cs')
unfolding assign_loop
assign_loop-Ready choose s fuel [] candidates cs h r enough = (cs, refl, (candidates, r))
assign_loop-Ready choose s zero (p ∷ ps) candidates cs h r enough = absurd (omega arith)
assign_loop-Ready choose s (suc fuel) (p ∷ ps) candidates cs h r enough =
    let (zs, cs₁, one, r₁) = assign_one-Ready choose s p ps candidates cs r enough in
    let (cs₂, loop, last) = assign_loop-Ready choose s fuel ps zs cs₁ (omega arith) r₁ enough in
    (cs₂, rw one loop, last)
