-- ===== src/Rocks/Unseen.antt =====
-- A key that is listed and not found.
use faust.Common.{
  ℕ, ◌≡◌, ◌≢◌, refl, ap, ◌∙◌, Bool, true, not, ◌&&◌, List, [], ◌∷◌, none, some, String, Eq, ◌==◌,
  nat_eq, contains, any, arith, ok,
}
use faust.Types.{Tp}
use faust.Rocks.{
  Database, KeyIndex, Store, TableFlags, search_dbs, after_look, get_from, get_key, del_key,
}
use faust.Rocks.Access.{value_of, get_bucket_for_key-search, dbs_for_key-indexed}
use faust.Rocks.Deletion.{del_key_lem, del_key_rest}
use faust.Rocks.Items.{is_listed, iteritems}
use faust.Rocks.Listed.{pair_eq, has_value, iteritems_lem}

any-member :
    (f : ℕ → Bool) (xs : List ℕ) (q : ℕ) → contains xs q ≡ true → f q ≡ true → any f xs ≡ true
any-member f [] q h t = absurd (cc)
any-member f (x ∷ xs) q h t = ground (arith, any-member f xs q, h, t, same)
  where
    same : x ≡ q → f x ≡ f q
    same e = ap f e

module _ {D I B : Type 0} ⦃bytes : Eq B⦄ (db : Database D B bytes) (ix : KeyIndex I B bytes)
    (can_open : ℕ → Bool) where
  search_missing :
      (s : Store D I) (k : B) (p : ℕ)
      → db.get_value (s.files p) k ≡ none
      → search_dbs db ix s k (p ∷ []) ≡ none
  unfolding search_dbs
  search_missing s k p h = rw h (ground arith)

  get_key-missing :
      (table : TableFlags) (s : Store D I) (k : B) (p : ℕ)
      → ix.look s.key_index k ≡ some p
      → contains s.dbs p ≡ true
      → db.get_value (s.files p) k ≡ none
      → value_of (get_key db ix can_open table none s k) ≡ ok none
  unfolding get_key get_from
  get_key-missing table s k p look there h = ap ok (
      get_bucket_for_key-search db ix can_open s k
      ∙ rw
          (
            dbs_for_key-indexed db ix can_open s k p look there,
            search_missing (after_look db ix s k) k p h,
          )
          refl)

  -- Where the index places a key in an open partition p, and an open and listed partition q has a
  -- value for it too: after the key is deleted, a read of the key outside any event gives no
  -- value, for any table, while the items still list it with q's value.
  pub del_key-listed_unseen :
      (table : TableFlags) (offset_key : B) (actives : List Tp) (topic : String) (is_global : Bool)
      (s : Store D I) (p q : ℕ) (k v : B)
      → ix.look s.key_index k ≡ some p
      → contains s.dbs p ≡ true
      → p ≢ q
      → contains s.dbs q ≡ true
      → is_listed actives topic is_global q ≡ true
      → offset_key ≢ k
      → db.get_value (s.files q) k ≡ some v
      → (value_of (get_key db ix can_open table none (del_key db ix s k) k) ≡ ok none)
        × (contains (iteritems db offset_key actives topic is_global (del_key db ix s k)) (k, v)
            ≡ true)
  del_key-listed_unseen table offset_key actives topic is_global s p q k v look there n open_q
        listed o h =
      let s' = del_key db ix s k in
      let (same_dbs, same_index) = del_key_rest db ix s k in
      let deleted = del_key_lem db ix s k in
      let only = dbs_for_key-indexed db ix can_open s k p look there in
      let gone : db.get_value (s'.files p) k ≡ none =
        deleted p k ∙ rw only (ground (arith, bytes.beq_iff k k)) in
      let stays : db.get_value (s'.files q) k ≡ some v =
        deleted q k ∙ rw only (ground (arith, n, h)) in
      (
        get_key-missing table s' k p
            (ap (λ i. ix.look i k) same_index ∙ ix.look-used s.key_index k k ∙ look)
            (ap (λ dbs. contains dbs p) same_dbs ∙ there) gone,
        (iteritems_lem db offset_key actives topic is_global s').0 k v
            ∙ any-member
                (λ r.
                  is_listed actives topic is_global r
                  && (has_value (db.get_value (s'.files r) k) v && not (k == offset_key)))
                s'.dbs q (ap (λ dbs. contains dbs q) same_dbs ∙ open_q)
                (rw (listed, stays)
                  (ground (arith, o, bytes.beq_iff v v, bytes.beq_iff k offset_key))),
      )
