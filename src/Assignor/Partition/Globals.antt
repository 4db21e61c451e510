-- ===== src/Assignor/Partition/Globals.antt =====
-- What the members get of the changelogs of global tables.
use faust.Common.{
  ℕ, ◌≡◌, refl, sym, ap, ◌∙◌, Bool, true, false, ◌&&◌, ◌||◌, List, [], ◌∷◌, Option, none, some,
  arith, if◌then◌else◌, ok, >>=-eq-ok, range, String, string_eq, nat_eq, ◌==◌, Bool-cases, inl, inr,
}
use faust.Common.Dict.{Dict, get, get-put}
use faust.Assignor.Client.{ClientAssignment}
use faust.Assignor.Partition.{Table}
use faust.Assignor.Partition.Perform.{
  found, with_global, map_values, global_table_standby_assignments,
}

-- Whether a topic is the changelog of a global table
abbrev pub is_global_changelog : List Table → String → Bool
is_global_changelog [] topic = false
is_global_changelog (table ∷ tables) topic =
    table.is_global && (table.changelog_topic_name == topic) || is_global_changelog tables topic

abbrev pub actives_at : Option ClientAssignment → String → Option (List ℕ)
actives_at none topic = none
actives_at (some a) topic = get a.actives topic

abbrev pub map_option : {V W : Type 0} → (V → W) → Option V → Option W
map_option f none = none
map_option f (some v) = some (f v)

get-map_values :
    {V W : Type 0} (f : V → W) (d : Dict String V) (k : String)
    → get (map_values f d) k ≡ map_option f (get d k)
unfolding get
get-map_values f [] k = refl
get-map_values f ((j, v) ∷ d) k = elim (Bool-cases (j == k)) [
  | inl y ↦ rw (y, get) refl
  | inr n ↦ rw (n, get) (get-map_values f d k)
]

actives_at-with_global :
    (table : Table) (n : ℕ) (o : Option ClientAssignment) (a : ClientAssignment) (topic : String)
    → o ≡ some a
    → actives_at (map_option (with_global table n) o) topic
      ≡ (if table.changelog_topic_name == topic then some (range n) else actives_at o topic)
unfolding with_global
actives_at-with_global table n o a topic e =
    rw e (get-put a.actives table.changelog_topic_name topic (range n))

when_true : {A : Type 0} {b : Bool} (x y : A) {z : A} → b ≡ true → (if b then x else y) ≡ z → x ≡ z
when_true x y e h = sym (ap (λ c. if c then x else y) e) ∙ h

when_false :
    {A : Type 0} {b : Bool} (x y : A) {z : A} → b ≡ false → (if b then x else y) ≡ z → y ≡ z
when_false x y e h = sym (ap (λ c. if c then x else y) e) ∙ h

-- Where the assignments of global tables are made, a member's actives of a topic whose number of
-- partitions is known are: all partitions of the topic if it is the changelog of a global table;
-- what they were before if not.
pub global_table_standby_assignments_lem :
    (assignments assignments' : Dict String ClientAssignment) (partitions_by_topic : Dict String ℕ)
    (tables : List Table) (member : String) (a : ClientAssignment) (topic : String) (n : ℕ)
    → global_table_standby_assignments assignments partitions_by_topic tables ≡ ok assignments'
    → get assignments member ≡ some a
    → get partitions_by_topic topic ≡ some n
    → actives_at (get assignments' member) topic ≡ (
        if is_global_changelog tables topic
        then some (range n)
        else actives_at (get assignments member) topic)
unfolding global_table_standby_assignments
global_table_standby_assignments_lem assignments assignments' counts [] member a topic n e at_member
      at_topic =
    let same : assignments ≡ assignments' = cc in rw same refl
global_table_standby_assignments_lem assignments assignments' counts (table ∷ tables) member a topic
      n e at_member at_topic =
    elim (Bool-cases table.is_global) [
      | inl y ↦
          let (n', known, rest) =
            >>=-eq-ok (found (get counts table.changelog_topic_name)) _ (when_true _ _ y e) in
          let given = get-map_values (with_global table n') assignments member in
          let later =
            global_table_standby_assignments_lem (map_values (with_global table n') assignments)
              assignments' counts tables member (with_global table n' a) topic n rest
              (given ∙ ap (map_option (with_global table n')) at_member) at_topic in
          let now = actives_at-with_global table n' (get assignments member) a topic at_member in
          let same_topic : table.changelog_topic_name ≡ topic
              → get counts table.changelog_topic_name ≡ get counts topic =
            λ q. ap (get counts) q in
          later
          ∙ rw given (
              ground (
                arith,
                now,
                y,
                known,
                at_topic,
                same_topic,
                string_eq.beq_iff table.changelog_topic_name topic,
              ))
      | inr z ↦
          global_table_standby_assignments_lem assignments assignments' counts tables member a topic
            n (when_false _ _ z e) at_member at_topic
          ∙ rw z refl
    ]
