-- ===== src/Assignor/Copartitioned/Clients.antt =====
-- One client of the list exchanged for another, and the client that has room.
use mathlib.Core.Path.{subst}
use mathlib.Core.Option.{some-injective}
use faust.Common.{
  ℕ, zero, suc, ◌+◌, ◌*◌, ◌≤◌, ◌<◌, ◌≡◌, refl, Bool, true, List, [], ◌∷◌, arith, ok, Result, length,
  length-append, All, get_elem?, set, some, leb, Bool-cases, inl, inr,
}
use faust.Common.Counting.{count, count-append}
use faust.Assignor.Copartition.{CopartitionedAssignment, get_assigned_partitions}
use faust.Assignor.Copartitioned.{assigned_partitions, update_client}

abbrev Clients : Type 0
Clients = List CopartitionedAssignment

pub update_client-set :
    (cs : Clients) (i : ℕ) (f : CopartitionedAssignment → Result CopartitionedAssignment)
    (c c' : CopartitionedAssignment)
    → get_elem? cs i ≡ some c
    → f c ≡ ok c'
    → update_client cs i f ≡ ok (set cs i c')
unfolding update_client
update_client-set [] i f c c' h e = cc
update_client-set (d ∷ cs) zero f c c' h e = ground arith
update_client-set (d ∷ cs) (suc i) f c c' h e = rw (update_client-set cs i f c c' h e)

pub get_elem?-set_self :
    (cs : Clients) (i : ℕ) (c c' : CopartitionedAssignment)
    → get_elem? cs i ≡ some c
    → get_elem? (set cs i c') i ≡ some c'
get_elem?-set_self [] i c c' h = cc
get_elem?-set_self (d ∷ cs) zero c c' h = refl
get_elem?-set_self (d ∷ cs) (suc i) c c' h = get_elem?-set_self cs i c c' h

pub get_elem?-lt :
    (cs : Clients) (i : ℕ) (c : CopartitionedAssignment) → get_elem? cs i ≡ some c → i < length cs
get_elem?-lt [] i c h = absurd (ground arith)
get_elem?-lt (d ∷ cs) zero c h = omega arith
get_elem?-lt (d ∷ cs) (suc i) c h = omega (arith, get_elem?-lt cs i c h)

pub All-get_elem? {κ} :
    (P : CopartitionedAssignment → Type κ) (cs : Clients) (i : ℕ) (c : CopartitionedAssignment)
    → All P cs
    → get_elem? cs i ≡ some c
    → P c
All-get_elem? P [] i c h e = absurd (cc)
All-get_elem? P (d ∷ cs) zero c h e = subst P (some-injective d c e) h.0
All-get_elem? P (d ∷ cs) (suc i) c h e = All-get_elem? P cs i c h.1 e

pub All-set {κ} :
    (P : CopartitionedAssignment → Type κ) (cs : Clients) (i : ℕ) (c : CopartitionedAssignment)
    → All P cs
    → P c
    → All P (set cs i c)
All-set P [] i c h p = tt
All-set P (d ∷ cs) zero c h p = (p, h.1)
All-set P (d ∷ cs) (suc i) c h p = (h.0, All-set P cs i c h.1 p)

pub count-set :
    (active : Bool) (q : ℕ) (cs : Clients) (i : ℕ) (c c' : CopartitionedAssignment)
    → get_elem? cs i ≡ some c
    → count q (assigned_partitions (set cs i c') active)
        + count q (get_assigned_partitions c active)
      ≡ count q (assigned_partitions cs active) + count q (get_assigned_partitions c' active)
unfolding assigned_partitions
count-set active q [] i c c' h = cc
count-set active q (d ∷ cs) zero c c' h =
    let rest = assigned_partitions cs active in
    ground (
      arith,
      count-append q (get_assigned_partitions c' active) rest,
      count-append q (get_assigned_partitions d active) rest,
    )
count-set active q (d ∷ cs) (suc i) c c' h =
    let own = get_assigned_partitions d active in
    omega (
      arith,
      count-append q own (assigned_partitions (set cs i c') active),
      count-append q own (assigned_partitions cs active),
      count-set active q cs i c c' h,
    )

-- Fewer partitions than places: some client has room.
pub has_room :
    (cap : ℕ) (cs : Clients)
    → length (assigned_partitions cs true) < cap * length cs
    → (i : ℕ) × (c : CopartitionedAssignment) × (get_elem? cs i ≡ some c) × (length c.actives < cap)
unfolding assigned_partitions
has_room cap [] h = absurd (omega arith)
has_room cap (c ∷ cs) h = elim (Bool-cases (leb cap (length c.actives))) [
  | inl full ↦
      let more = length-append {0} c.actives (assigned_partitions cs true) in
      let small : cap ≤ length c.actives = ground arith in
      let (i, d, at, room) = has_room cap cs (omega (arith, more)) in (suc i, d, at, room)
  | inr room ↦ (0, c, refl, ground arith)
]

pub count-at-le :
    (active : Bool) (q : ℕ) (cs : Clients) (i : ℕ) (c : CopartitionedAssignment)
    → get_elem? cs i ≡ some c
    → count q (get_assigned_partitions c active) ≤ count q (assigned_partitions cs active)
unfolding assigned_partitions
count-at-le active q [] i c h = absurd (cc)
count-at-le active q (d ∷ cs) zero c h =
    ground
      (arith, count-append q (get_assigned_partitions d active) (assigned_partitions cs active))
count-at-le active q (d ∷ cs) (suc i) c h = omega (
  arith,
  count-append q (get_assigned_partitions d active) (assigned_partitions cs active),
  count-at-le active q cs i c h,
)
