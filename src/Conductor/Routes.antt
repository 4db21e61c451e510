-- ===== src/Conductor/Routes.antt =====
-- Which channels a partition is routed to, once the partitions are assigned.
use faust.Common.{
  ℕ, ◌≡◌, refl, ap, ◌∙◌, Bool, true, ◌&&◌, ◌||◌, List, [], ◌∷◌, Option, none, some, String, nat_eq,
  nat_beq, ◌==◌, contains, include, any, all, keep, length, ok, arith, Bool-cases, string_eq, inl,
  inr,
}
use faust.Common.Dict.{Dict, get, put, get-put}
use faust.Common.Members.{contains-append, contains-include, contains-keep}
use faust.Types.{Tp, tp_eq}
use faust.Conductor.{
  Channel, Conductor, members, add_to_index, tps_of_topics, partitions_of, update_tp_index,
  update_callbacks, on_partitions_assigned,
}

-- Whether the channel with this number receives the messages of the partition
abbrev pub is_routed : Dict Tp (List ℕ) → Tp → ℕ → Bool
is_routed index tp ident = contains (members (get index tp)) ident

-- Whether a channel asks for a partition: it is one of its active partitions, or one of the
-- assigned partitions of its topics where it has no active partitions of its own.
abbrev pub wants : List Tp → Tp → Channel → Bool
wants assigned tp channel = elim channel.active_partitions [
  | some tps ↦ contains tps tp
  | none ↦ contains channel.topics tp.topic && contains assigned tp
]

members-put :
    (index : Dict Tp (List ℕ)) (t : Tp) (i : ℕ) (tp : Tp) (j : ℕ)
    → is_routed (put index t (include (members (get index t)) i)) tp j
      ≡ (is_routed index tp j || (nat_beq i j && t == tp))
members-put index t i tp j = elim (Bool-cases (t == tp)) [
  | inl y ↦
      let same : t ≡ tp = (tp_eq.beq_iff t tp).0 y in
      rw (get-put index t tp (include (members (get index t)) i), y)
        (contains-include (members (get index t)) i j
          ∙ ap (λ u. contains (members (get index u)) j || nat_beq i j) same
          ∙ ground arith)
  | inr n ↦ rw (get-put index t tp (include (members (get index t)) i), n) (ground arith)
]

add_to_index-is_routed :
    (index : Dict Tp (List ℕ)) (i : ℕ) (tps : List Tp) (tp : Tp) (j : ℕ)
    → is_routed (add_to_index index i tps) tp j
      ≡ (is_routed index tp j || (nat_beq i j && contains tps tp))
unfolding add_to_index
add_to_index-is_routed index i [] tp j = ground arith
add_to_index-is_routed index i (t ∷ tps) tp j =
    let rest =
      add_to_index-is_routed (put index t (include (members (get index t)) i)) i tps tp j in
    rest ∙ ground (arith, members-put index t i tp j)

contains-tps_of_topics :
    (assigned : List Tp) (topics : List String) (tp : Tp)
    → contains (tps_of_topics assigned topics) tp
      ≡ (contains topics tp.topic && contains assigned tp)
unfolding tps_of_topics
contains-tps_of_topics assigned [] tp = refl
contains-tps_of_topics assigned (t ∷ topics) tp = ground (
  arith,
  contains-append (keep (λ u. u.topic == t) assigned) (tps_of_topics assigned topics) tp,
  contains-keep (λ u. u.topic == t) assigned tp,
  contains-tps_of_topics assigned topics tp,
  string_eq.beq_iff tp.topic t,
  string_eq.beq_iff t tp.topic,
)

-- Whether a channel's own partitions are assigned, where it has any and some are assigned
abbrev pub fits : List Tp → Channel → Bool
fits assigned channel = elim channel.active_partitions [
  | some tps ↦ length assigned == 0 || all (contains assigned) tps
  | none ↦ true
]

partitions_of_lem :
    (channel : Channel) (assigned : List Tp)
    → fits assigned channel ≡ true
    → (tps : List Tp) × (partitions_of channel assigned ≡ ok tps)
      × ((tp : Tp) → contains tps tp ≡ wants assigned tp channel)
unfolding partitions_of
partitions_of_lem channel assigned h = by_cases channel.active_partitions refl
  where
    by_cases :
        (own : Option (List Tp))
        → channel.active_partitions ≡ own
        → (tps : List Tp) × (partitions_of channel assigned ≡ ok tps)
          × ((tp : Tp) → contains tps tp ≡ wants assigned tp channel)
    by_cases none e = (
      tps_of_topics assigned channel.topics,
      ground (arith, e),
      λ tp. ground (arith, e, contains-tps_of_topics assigned channel.topics tp),
    )
    by_cases (some tps) e = (tps, ground (arith, e, h), λ tp. ground (arith, e))

update_tp_index-is_routed :
    (index : Dict Tp (List ℕ)) (channels : List Channel) (assigned : List Tp)
    → all (fits assigned) channels ≡ true
    → (after : Dict Tp (List ℕ)) × (update_tp_index index channels assigned ≡ ok after)
      × ((tp : Tp) (j : ℕ)
          → is_routed after tp j ≡ (
              is_routed index tp j
              || any (λ ch. nat_beq ch.ident j && wants assigned tp ch) channels))
unfolding update_tp_index
update_tp_index-is_routed index [] assigned h = (index, refl, λ tp j. ground arith)
update_tp_index-is_routed index (ch ∷ channels) assigned h =
    let one = partitions_of_lem ch assigned (ground (arith, h)) in
    let rest =
      update_tp_index-is_routed (add_to_index index ch.ident one.0) channels assigned
        (ground (arith, h)) in
    (
      rest.0,
      rw (one.1) rest.1,
      λ tp j.
          ground (arith, rest.2 tp j, add_to_index-is_routed index ch.ident one.0 tp j, one.2 tp),
    )

-- Where the partitions that a channel has of its own are assigned, or no partition is: the
-- assignment raises nothing, and a channel's number is then in the index of a partition exactly
-- when a registered channel of that number asks for the partition.
pub on_partitions_assigned_lem :
    (c : Conductor) (assigned : List Tp)
    → all (fits assigned) c.topics ≡ true
    → (after : Conductor) × (on_partitions_assigned c assigned ≡ ok after)
      × ((tp : Tp) (j : ℕ)
          → is_routed after.tp_index tp j
            ≡ any (λ ch. nat_beq ch.ident j && wants assigned tp ch) c.topics)
unfolding on_partitions_assigned get
on_partitions_assigned_lem c assigned h =
    let r = update_tp_index-is_routed [] c.topics assigned h in
    (
      record c { tp_index = r.0; tp_to_callback = update_callbacks c.tp_to_callback r.0 },
      rw (r.1) refl,
      λ tp j. r.2 tp j,
    )
