-- ===== src/Conductor/Callbacks.antt =====
-- Which handler a partition has after an assignment.
use mathlib.Core.Path.{subst}
use faust.Common.{
  ℕ, ◌≡◌, refl, sym, ap, ◌∙◌, List, [], ◌∷◌, Option, none, some, nat_eq, include, ok, >>=-eq-ok,
  ok-injective, ◌==◌, Bool-cases, inl, inr,
}
use faust.Common.Dict.{Dict, get, put, get-put, HasDistinctKeys, put-HasDistinctKeys}
use faust.Types.{Tp, tp_eq}
use faust.Conductor.{
  Channel, Conductor, members, add_to_index, partitions_of, update_tp_index, update_callbacks,
  on_partitions_assigned, callback_for_tp,
}

abbrev pub or_else : {A : Type 0} → Option A → Option A → Option A
or_else none other = other
or_else (some a) other = some a

update_callbacks_lem :
    (callbacks index : Dict Tp (List ℕ)) (tp : Tp)
    → HasDistinctKeys index
    → get (update_callbacks callbacks index) tp ≡ or_else (get index tp) (get callbacks tp)
unfolding update_callbacks get
update_callbacks_lem callbacks [] tp h = refl
update_callbacks_lem callbacks ((t, cs) ∷ index) tp h =
    update_callbacks_lem (put callbacks t cs) index tp h.1
    ∙ ap (or_else (get index tp)) (get-put callbacks t tp cs)
    ∙ elim (Bool-cases (t == tp)) [
      | inl y ↦
          let same : t ≡ tp = (tp_eq.beq_iff t tp).0 y in
          let gone : get index tp ≡ none = ap (get index) (sym same) ∙ h.0 in rw (y, gone) refl
      | inr n ↦ rw n refl
    ]

add_to_index-HasDistinctKeys :
    (index : Dict Tp (List ℕ)) (i : ℕ) (tps : List Tp)
    → HasDistinctKeys index
    → HasDistinctKeys (add_to_index index i tps)
unfolding add_to_index
add_to_index-HasDistinctKeys index i [] h = h
add_to_index-HasDistinctKeys index i (tp ∷ tps) h =
    let v = include (members (get index tp)) i in
    add_to_index-HasDistinctKeys (put index tp v) i tps (put-HasDistinctKeys index tp v h)

update_tp_index-HasDistinctKeys :
    (index after : Dict Tp (List ℕ)) (channels : List Channel) (assigned : List Tp)
    → HasDistinctKeys index
    → update_tp_index index channels assigned ≡ ok after
    → HasDistinctKeys after
unfolding update_tp_index
update_tp_index-HasDistinctKeys index after [] assigned h e =
    let same : index ≡ after = ok-injective e in subst (λ d. HasDistinctKeys d) same h
update_tp_index-HasDistinctKeys index after (ch ∷ channels) assigned h e =
    let step =
      >>=-eq-ok (partitions_of ch assigned)
        (λ tps. update_tp_index (add_to_index index ch.ident tps) channels assigned) e in
    update_tp_index-HasDistinctKeys (add_to_index index ch.ident step.0) after channels assigned
      (add_to_index-HasDistinctKeys index ch.ident step.0 h) step.2

-- After an assignment that raises nothing, the messages of a partition go to the channels that the
-- new index has for it; where it has none, they go to the channels that they went to before.
pub on_partitions_assigned-callbacks :
    (c after : Conductor) (assigned : List Tp) (tp : Tp)
    → on_partitions_assigned c assigned ≡ ok after
    → callback_for_tp after tp ≡ or_else (get after.tp_index tp) (callback_for_tp c tp)
unfolding on_partitions_assigned
on_partitions_assigned-callbacks c after assigned tp e =
    let step =
      >>=-eq-ok (update_tp_index [] c.topics assigned)
        (λ index.
          ok (record c {
            tp_index = index;
            tp_to_callback = update_callbacks c.tp_to_callback index;
          }))
        e in
    let index = step.0 in
    let built : Conductor = record c {
      tp_index = index;
      tp_to_callback = update_callbacks c.tp_to_callback index;
    } in
    let same : built ≡ after = ok-injective step.2 in
    let distinct = update_tp_index-HasDistinctKeys [] index c.topics assigned tt step.1 in
    subst
      (λ (d : Conductor). callback_for_tp d tp ≡ or_else (get d.tp_index tp) (callback_for_tp c tp))
      same (update_callbacks_lem c.tp_to_callback index tp distinct)
