-- ===== src/Tests/BarrierRuns.antt =====
-- Joins of two items, and a barrier that is too large.
use faust.Common.{
  ℕ, ◌≡◌, refl, true, false, List, [], ◌∷◌, Option, none, some, arith, String, string_eq, get_elem?,
  ◌++◌,
}
use faust.Common.Dict.{get}
use faust.Barrier.{new_barrier, finalize}
use faust.Barrier.Completion.{
  add_times, fulfill_all, fulfill_each, fulfill_all-done, fulfill_each-never_done,
}
use faust.Barrier.Join.{Sending, sends, replied, returns, kvjoin}
use faust.Barrier.Join.Done.{early, kvjoin-places}

abbrev two_replies : List (String × ℕ)
two_replies = ("b", 2) ∷ ("a", 1) ∷ []

abbrev ids : List String
ids = "a" ∷ "b" ∷ []

fulfill_all-done_example :
    (finalize {A = ℕ} (add_times 2 new_barrier)).1 ≡ none
    × (fulfill_all (finalize (add_times 2 new_barrier)).0 two_replies ≡ (
      record {
        size = 2;
        total = 2;
        fulfilled = 2;
        results = some ("b", 2) ∷ some ("a", 1) ∷ none ∷ [];
        done = true;
      },
      none,
    ))
fulfill_all-done_example = fulfill_all-done two_replies (omega arith) (omega arith)

fulfill_each-never_done_example :
    (fulfill_each (finalize (add_times 1001 new_barrier)).0 two_replies).done ≡ false
fulfill_each-never_done_example = fulfill_each-never_done 1001 two_replies (omega arith)

-- The reply to "a" comes before "b" is sent.
abbrev sending : List (Sending ℕ)
sending = sends "a" ∷ replied "a" 1 ∷ sends "b" ∷ []

abbrev late : List (String × ℕ)
late = ("b", 2) ∷ []

kvjoin-places_example :
    (values : List (Option ℕ)) × (kvjoin sending late ≡ returns values)
    × ((i : ℕ) (id : String)
        → get_elem? ids i ≡ some id
        → (v : ℕ) × (get (early sending ++ late) id ≡ some v)
          × (get_elem? values i ≡ some (some v)))
unfolding get
kvjoin-places_example =
    kvjoin-places sending late (refl, (refl, tt)) (refl, (refl, tt)) (refl, (refl, tt))
      (omega arith) (omega arith)
