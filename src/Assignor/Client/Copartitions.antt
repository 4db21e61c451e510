-- ===== src/Assignor/Client/Copartitions.antt =====
-- What a client keeps of the assignment of a group of copartitioned topics.
use faust.Common.{
  ℕ, ◌≡◌, refl, sym, ap, ◌∙◌, true, false, not, ◌&&◌, List, [], ◌∷◌, map, some, arith,
  if◌then◌else◌, ok, assertion_error, >>=-eq-ok, check, contains, union, any, String, string_eq,
  nat_eq, Bool-cases, inl, inr, All,
}
use faust.Common.Dict.{Dict, get, put, get-put}
use faust.Common.Members.{contains-union, contains-keep}
use faust.Assignor.Copartition.{CopartitionedAssignment, validate}
use faust.Assignor.Client.{
  ClientAssignment, partitions_or, set_of, keys, put_each, add_copartitioned_assignment,
  first_nonempty, colocated_partitions, copartitioned_assignment,
}

get-put_each :
    (d : Dict String (List ℕ)) (topics : List String) (ps : List ℕ) (t : String)
    → get (put_each d topics ps) t ≡ (if contains topics t then some ps else get d t)
get-put_each d [] ps t = refl
get-put_each d (topic ∷ topics) ps t =
    get-put_each (put d topic ps) topics ps t ∙ ground (arith, get-put d topic t ps)

-- All the topics have the same partitions.
abbrev pub AllHave : Dict String (List ℕ) → List ℕ → List String → Type 0
AllHave d ps topics = All (λ t. get d t ≡ some ps) topics

first_nonempty-same :
    (d : Dict String (List ℕ)) (ps : List ℕ) (t : String) (topics : List String)
    → AllHave d ps (t ∷ topics)
    → first_nonempty (map (λ u. set_of (partitions_or (get d u))) (t ∷ topics)) ≡ set_of ps
first_nonempty-same d ps t [] h = rw h.0 (only (set_of ps))
  where
    only : (xs : List ℕ) → first_nonempty (xs ∷ []) ≡ xs
    only [] = refl
    only (x ∷ xs) = refl
first_nonempty-same d ps t (u ∷ topics) h =
    rw h.0 (either _ (set_of ps) (first_nonempty-same d ps u topics h.1))
  where
    either :
        (rest : List (List ℕ)) (xs : List ℕ)
        → first_nonempty rest ≡ xs
        → first_nonempty (xs ∷ rest) ≡ xs
    either rest [] e = e
    either rest (x ∷ xs) e = refl

AllHave-put_each :
    (d : Dict String (List ℕ)) (ps : List ℕ) (topics among : List String)
    → All (λ t. contains topics t ≡ true) among
    → AllHave (put_each d topics ps) ps among
AllHave-put_each d ps topics [] h = tt
AllHave-put_each d ps topics (t ∷ among) h =
    (get-put_each d topics ps t ∙ rw h.0 refl, AllHave-put_each d ps topics among h.1)

All-contains-later :
    (t : String) (topics among : List String)
    → All (λ u. contains topics u ≡ true) among
    → All (λ u. contains (t ∷ topics) u ≡ true) among
All-contains-later t topics [] h = tt
All-contains-later t topics (u ∷ among) h =
    (ground (arith, h.0), All-contains-later t topics among h.1)

All-contains : (topics : List String) → All (λ t. contains topics t ≡ true) topics
All-contains [] = tt
All-contains (t ∷ topics) = (
  ground (arith, string_eq.beq_iff t t),
  All-contains-later t topics topics (All-contains topics),
)

validate_lem :
    (a : CopartitionedAssignment) (p : ℕ)
    → ((validate a).actives ≡ a.actives)
      × (contains (validate a).standbys p ≡ (contains a.standbys p && not (contains a.actives p)))
unfolding validate
validate_lem a p = elim (Bool-cases (any (contains a.actives) a.standbys)) [
  | inl y ↦ rw (y, validate) (refl, contains-keep (λ q. not (contains a.actives q)) a.standbys p)
  | inr n ↦ rw (n, validate) (refl, apart a.actives a.standbys n)
]
  where
    apart :
        (actives standbys : List ℕ)
        → any (contains actives) standbys ≡ false
        → contains standbys p ≡ (contains standbys p && not (contains actives p))
    apart actives [] h = refl
    apart actives (q ∷ standbys) h = ground (arith, apart actives standbys, same actives q)
      where
        same : (xs : List ℕ) (q : ℕ) → q ≡ p → contains xs q ≡ contains xs p
        same xs q e = ap (contains xs) e

filled-copartitioned_assignment :
    (actives standbys : Dict String (List ℕ)) (a : CopartitionedAssignment) (p : ℕ) (t : String)
    (topics : List String)
    → a.topics ≡ t ∷ topics
    → let c : ClientAssignment = record {
      actives = put_each actives a.topics a.actives;
      standbys = put_each standbys a.topics a.standbys;
    } in
      (contains (copartitioned_assignment c a.topics).actives p ≡ contains a.actives p)
      × (contains (copartitioned_assignment c a.topics).standbys p
          ≡ (contains a.standbys p && not (contains a.actives p)))
unfolding copartitioned_assignment colocated_partitions
filled-copartitioned_assignment actives standbys a p t topics e =
    let among : (d : Dict String (List ℕ)) (ps : List ℕ)
        → AllHave (put_each d (t ∷ topics) ps) ps (t ∷ topics) =
      λ d ps. AllHave-put_each d ps (t ∷ topics) (t ∷ topics) (All-contains (t ∷ topics)) in
    let active =
      first_nonempty-same (put_each actives (t ∷ topics) a.actives) a.actives t topics
        (among actives a.actives) in
    let standby =
      first_nonempty-same (put_each standbys (t ∷ topics) a.standbys) a.standbys t topics
        (among standbys a.standbys) in
    let given : CopartitionedAssignment = record {
      actives = set_of a.actives;
      standbys = set_of a.standbys;
      topics = t ∷ topics;
    } in
    let v = validate_lem given p in
    rw (e, active, standby)
      (
        ap (λ xs. contains xs p) v.0 ∙ contains-union [] a.actives p,
        v.1 ∙ rw (contains-union [] a.actives p, contains-union [] a.standbys p) refl,
      )

-- A client that accepts the assignment of a group of topics, which is not empty, gives for the
-- group the same actives, and the same standbys but those that are actives too. A topic of the
-- group then has the group's actives, any other topic those it had.
pub add_copartitioned_assignment_lem :
    (c c' : ClientAssignment) (a : CopartitionedAssignment) (t : String) (topics : List String)
    (p : ℕ) (u : String)
    → a.topics ≡ t ∷ topics
    → add_copartitioned_assignment c a ≡ ok c'
    → (contains (copartitioned_assignment c' a.topics).actives p ≡ contains a.actives p)
      × (contains (copartitioned_assignment c' a.topics).standbys p
          ≡ (contains a.standbys p && not (contains a.actives p)))
      × (get c'.actives u ≡ (if contains a.topics u then some a.actives else get c.actives u))
unfolding add_copartitioned_assignment
add_copartitioned_assignment_lem c c' a t topics p u some_topic e =
    let (_, _, added) =
      >>=-eq-ok
        (check (not (any (contains (union (keys c.actives) (keys c.standbys))) a.topics))
          assertion_error)
        _ e in
    let filled : ClientAssignment = record {
      actives = put_each c.actives a.topics a.actives;
      standbys = put_each c.standbys a.topics a.standbys;
    } in
    let same : filled ≡ c' = cc in
    let f = filled-copartitioned_assignment c.actives c.standbys a p t topics some_topic in
    rw (sym same) (f.0, f.1, get-put_each c.actives a.topics a.actives u)
