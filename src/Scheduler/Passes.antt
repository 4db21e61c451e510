-- ===== src/Scheduler/Passes.antt =====
-- What one `next` takes from the buffers of a topic.
use mathlib.Core.List.{append-nil, append_assoc}
use faust.Common.{
  suc, ◌≡◌, refl, sym, ap, ◌∙◌, Bool, true, false, List, [], ◌∷◌, ◌++◌, Option, none, some, arith,
  String, string_eq, ◌==◌,
}
use faust.Common.Dict.{get}
use faust.Types.{Tp, tp_eq}
use faust.Scheduler.{TopicBuffer, Visit, yielded, ended, visit, next_pass, next_record}
use faust.Scheduler.Buffers.{
  only, messages, total, contents, IsOf, insert-IsOf, messages-insert, total-insert,
}

module _ {M : Type 0} where
  -- What the result of a pass or of a `next` says of what was left before it
  abbrev pub Took : String → List (Tp × List M) → Tp × M → TopicBuffer M → Type 0
  Took topic left item b =
      (item.0.topic ≡ topic)
      × IsOf topic (contents b)
      × (total left ≡ suc (total (contents b)))
      × ((tp : Tp)
          → messages tp left ≡ only (item.0 == tp) (item.1 ∷ []) ++ messages tp (contents b))

  abbrev pub AfterVisit : String → List (Tp × List M) → List (Tp × List M) → Visit M → Type 0
  AfterVisit topic left visited (yielded item b) = Took topic left item b
  AfterVisit topic left visited (ended rest) =
      (rest ≡ visited)
      × (total left ≡ total visited)
      × ((tp : Tp) → messages tp left ≡ messages tp visited)

  only_cons :
      (b : Bool) (m : M) (ms xs : List M)
      → only b (m ∷ ms) ++ xs ≡ only b (m ∷ []) ++ (only b ms ++ xs)
  only_cons true m ms xs = refl
  only_cons false m ms xs = refl

  only-nil : (b : Bool) → only {A = M} b [] ≡ []
  only-nil true = refl
  only-nil false = refl

  Took-cons :
      (topic : String) (left : List (Tp × List M)) (q : Tp) (item : Tp × M) (b : TopicBuffer M)
      → Took topic left item b
      → Took topic ((q, []) ∷ left) item b
  unfolding messages total
  Took-cons topic left q item b h = (h.0, h.1, omega (arith, h.2), λ tp. rw only-nil (h.3 tp))

  visit_lem :
      (topic : String) (ahead visited : List (Tp × List M))
      → IsOf topic (ahead ++ visited)
      → AfterVisit topic (ahead ++ visited) visited (visit ahead visited)
  unfolding visit messages total
  visit_lem topic [] visited h = (refl, refl, λ tp. refl)
  visit_lem topic ((q, []) ∷ ahead) visited h =
      skipped (visit ahead visited) (visit_lem topic ahead visited h.2)
    where
      skipped :
          (v : Visit M)
          → AfterVisit topic (ahead ++ visited) visited v
          → AfterVisit topic ((q, []) ∷ ahead ++ visited) visited v
      skipped (yielded item b) a = Took-cons topic (ahead ++ visited) q item b a
      skipped (ended rest) a = (a.0, omega (arith, a.1), λ tp. rw only-nil (a.2 tp))
  visit_lem topic ((q, m ∷ ms) ∷ ahead) visited h =
      let left = ahead ++ visited in
      let bare : left ++ [] ≡ left = append-nil left in
      let moved : ahead ++ (visited ++ (q, ms) ∷ []) ≡ left ++ (q, ms) ∷ [] =
        sym (append_assoc ahead visited ((q, ms) ∷ [])) in
      let absent : get (left ++ []) q ≡ none = ap (λ xs. get xs q) bare ∙ h.1 in
      (
        h.0,
        rw moved (insert-IsOf topic left [] q ms h.0 absent (rw bare h.2)),
        omega (arith, ap total moved, total-insert left [] q ms, ap total bare),
        λ tp.
            rw (moved, messages-insert tp left [] q ms absent, bare)
              (only_cons (q == tp) m ms (messages tp left)),
      )

  -- `next` takes a record that is left, and says that there is none only if there is none.
  abbrev pub AfterNext : String → List (Tp × List M) → Option ((Tp × M) × TopicBuffer M) → Type 0
  AfterNext topic left none = (total left ≡ 0) × ((tp : Tp) → messages tp left ≡ [])
  AfterNext topic left (some (item, b)) = Took topic left item b

  next_pass_lem :
      (topic : String) (left visited : List (Tp × List M)) (v : Visit M)
      → IsOf topic visited
      → AfterVisit topic left visited v
      → AfterNext topic left (next_pass v)
  unfolding next_pass messages total
  next_pass_lem topic left visited (yielded item b) h a = a
  next_pass_lem topic left visited (ended rest) h a =
      go (visit rest []) (visit_lem topic rest [] (rw (append-nil rest, a.0) h))
    where
      same : rest ++ [] ≡ visited
      same = append-nil rest ∙ a.0

      go :
          (v : Visit M)
          → AfterVisit topic (rest ++ []) [] v
          → AfterNext topic left (elim v as (λ x. Option ((Tp × M) × TopicBuffer M)) [
            | yielded item b ↦ some (item, b)
            | ended _ ↦ none
          ])
      go (yielded item b) w = (
        w.0,
        w.1,
        omega (arith, a.1, ap total same, w.2),
        λ tp. a.2 tp ∙ sym (ap (messages tp) same) ∙ w.3 tp,
      )
      go (ended r) w = (
        omega (arith, a.1, ap total same, w.1),
        λ tp. a.2 tp ∙ sym (ap (messages tp) same) ∙ w.2 tp,
      )

  later-IsOf : (topic : String) (xs ys : List (Tp × List M)) → IsOf topic (xs ++ ys) → IsOf topic ys
  later-IsOf topic [] ys h = h
  later-IsOf topic (x ∷ xs) ys h = later-IsOf topic xs ys h.2

  pub next_record_lem :
      (topic : String) (b : TopicBuffer M)
      → IsOf topic (contents b)
      → AfterNext topic (contents b) (next_record b)
  unfolding next_record
  next_record_lem topic b h =
      next_pass_lem topic (contents b) b.visited (visit b.ahead b.visited)
        (later-IsOf topic b.ahead b.visited h) (visit_lem topic b.ahead b.visited h)
