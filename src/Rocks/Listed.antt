-- ===== src/Rocks/Listed.antt =====
-- Which items a table lists, and that its keys, values and size are those of its items.
use faust.Common.{
  ℕ, suc, ◌≡◌, ◌↔◌, refl, sym, ap, ◌∙◌, Bool, true, false, not, ◌&&◌, ◌||◌, List, [], ◌∷◌, ◌++◌,
  Option, none, some, map, length, length-append, String, Eq, ◌==◌, nat_eq, contains, keep, any,
  arith, Bool-cases, inl, inr,
}
use faust.Common.Dict.{get, HasDistinctKeys}
use faust.Common.Members.{contains-append, contains-keep}
use faust.Types.{Tp, tp_eq}
use faust.Rocks.{Database, Store}
use faust.Rocks.Items.{
  is_listed, dbs_for_actives, first, second, visible_keys, visible_items, visible_values, size_of,
  chain, sum_of, size, iterkeys, itervalues, iteritems,
}

module _ {B : Type 0} ⦃bytes : Eq B⦄ where
  abbrev pub pair_beq : B × B → B × B → Bool
  pair_beq (j, v) (k, w) = j == k && v == w

  pub pair_beq_iff : (x y : B × B) → (pair_beq x y ≡ true) ↔ (x ≡ y)
  pair_beq_iff (j, v) (k, w) = ground (arith, bytes.beq_iff j k, bytes.beq_iff v w)

  instance abbrev pub pair_eq : Eq (B × B)
  pair_eq = record { beq = pair_beq; beq_iff = pair_beq_iff }

  abbrev pub has_value : Option B → B → Bool
  has_value none v = false
  has_value (some w) v = w == v

  contains_absent :
      (items : List (B × B)) (k v : B) → get items k ≡ none → contains items (k, v) ≡ false
  unfolding get
  contains_absent [] k v h = refl
  contains_absent ((j, w) ∷ items) k v h = elim (Bool-cases (j == k)) [
    | inl y ↦ absurd (ground (arith, h, y))
    | inr n ↦ ground (arith, h, n, contains_absent items k v)
  ]

  contains_item :
      (items : List (B × B)) (k v : B)
      → HasDistinctKeys items
      → contains items (k, v) ≡ has_value (get items k) v
  unfolding get
  contains_item [] k v h = refl
  contains_item ((j, w) ∷ items) k v h = elim (Bool-cases (j == k)) [
    | inl y ↦
        let same : j ≡ k = (bytes.beq_iff j k).0 y in
        let absent : get items k ≡ none = ap (get items) (sym same) ∙ h.0 in
        ground (arith, y, contains_absent items k v absent)
    | inr n ↦ ground (arith, n, contains_item items k v h.1)
  ]

module _ {A : Type 0} where
  any-keep : (f g : A → Bool) (xs : List A) → any f (keep g xs) ≡ any (λ x. g x && f x) xs
  any-keep f g [] = refl
  any-keep f g (x ∷ xs) = ground (arith, any-keep f g xs)

  any_same : {f g : A → Bool} → ((x : A) → f x ≡ g x) → (xs : List A) → any f xs ≡ any g xs
  any_same {f} {g} h [] = refl
  any_same {f} {g} h (x ∷ xs) = rw (h x, any_same h xs) refl

  keep-map :
      {C : Type 0} (f : A → C) (test : C → Bool) (xs : List A)
      → keep test (map f xs) ≡ map f (keep (λ x. test (f x)) xs)
  keep-map f test [] = refl
  keep-map f test (x ∷ xs) = ground (arith, keep-map f test xs)

  length-map : {C : Type 0} (f : A → C) (xs : List A) → length (map f xs) ≡ length xs
  length-map f [] = refl
  length-map f (x ∷ xs) = ap suc (length-map f xs)

  map-append : {C : Type 0} (f : A → C) (xs ys : List A) → map f (xs ++ ys) ≡ map f xs ++ map f ys
  map-append f [] ys = refl
  map-append f (x ∷ xs) ys = ap (λ zs. f x ∷ zs) (map-append f xs ys)

module _ {D A : Type 0} (list_of : D → List A) (files : ℕ → D) where
  contains-chain :
      ⦃e : Eq A⦄ (ps : List ℕ) (a : A)
      → contains (chain list_of files ps) a ≡ any (λ p. contains (list_of (files p)) a) ps
  unfolding chain
  contains-chain [] a = refl
  contains-chain (p ∷ ps) a =
      contains-append (list_of (files p)) (chain list_of files ps) a
      ∙ ap (λ b. contains (list_of (files p)) a || b) (contains-chain ps a)

  map-chain :
      {C : Type 0} (f : A → C) (maps : D → List C) (ps : List ℕ)
      → ((d : D) → maps d ≡ map f (list_of d))
      → chain maps files ps ≡ map f (chain list_of files ps)
  unfolding chain
  map-chain f maps [] h = refl
  map-chain f maps (p ∷ ps) h =
      rw (h (files p), map-chain f maps ps h)
        (sym (map-append f (list_of (files p)) (chain list_of files ps)))

  sum_of-length :
      (counts : D → ℕ) (ps : List ℕ)
      → ((d : D) → counts d ≡ length (list_of d))
      → sum_of counts files ps ≡ length (chain list_of files ps)
  unfolding chain sum_of
  sum_of-length counts [] h = refl
  sum_of-length counts (p ∷ ps) h = omega (
    arith,
    h (files p),
    sum_of-length counts ps h,
    length-append (list_of (files p)) (chain list_of files ps),
  )

module _ {D B : Type 0} ⦃bytes : Eq B⦄ (db : Database D B bytes) (offset_key : B) where
  contains-visible_items :
      (d : D) (k v : B)
      → contains (visible_items db offset_key d) (k, v)
        ≡ (has_value (db.get_value d k) v && not (k == offset_key))
  unfolding visible_items
  contains-visible_items d k v =
      contains-keep (λ x. not (first x == offset_key)) (db.items d) (k, v)
      ∙ ap (λ b. b && not (k == offset_key))
          (contains_item (db.items d) k v (db.items-HasDistinctKeys d)
            ∙ ap (λ o. has_value o v) (db.get-items d k))

  visible_keys_lem :
      (d : D) → visible_keys db offset_key d ≡ map first (visible_items db offset_key d)
  unfolding visible_keys visible_items
  visible_keys_lem d = keep-map first (λ k. not (k == offset_key)) (db.items d)

  visible_values_lem :
      (d : D) → visible_values db offset_key d ≡ map second (visible_items db offset_key d)
  unfolding visible_values
  visible_values_lem d = refl

  size_of_lem : (d : D) → size_of db offset_key d ≡ length (visible_items db offset_key d)
  unfolding size_of
  size_of_lem d = ap length (visible_keys_lem d) ∙ length-map first (visible_items db offset_key d)

module _ {D I B : Type 0} ⦃bytes : Eq B⦄ (db : Database D B bytes) (offset_key : B)
    (actives : List Tp) (topic : String) (is_global : Bool) where
  -- The partition is open and listed, and its database has the value for the key.
  abbrev pub holds_item : Store D I → B → B → Bool
  holds_item s k v =
      any
        (λ p.
          is_listed actives topic is_global p
          && (has_value (db.get_value (s.files p) k) v && not (k == offset_key)))
        s.dbs

  -- An item is listed exactly when an open database of an active partition, or of any partition
  -- for a global table, has the value for the key, and the key is not the offset's. The keys and
  -- the values that are listed are those of the items, in order, and the size is the number of
  -- items.
  pub iteritems_lem :
      (s : Store D I)
      → ((k v : B)
          → contains (iteritems db offset_key actives topic is_global s) (k, v) ≡ holds_item s k v)
        × (iterkeys db offset_key actives topic is_global s
            ≡ map first (iteritems db offset_key actives topic is_global s))
        × (itervalues db offset_key actives topic is_global s
            ≡ map second (iteritems db offset_key actives topic is_global s))
        × (size db offset_key actives topic is_global s
            ≡ length (iteritems db offset_key actives topic is_global s))
  unfolding iteritems iterkeys itervalues size dbs_for_actives
  iteritems_lem s =
      let ps = keep (is_listed actives topic is_global) s.dbs in
      (
        (λ k v.
            contains-chain (visible_items db offset_key) s.files ps (k, v)
            ∙ any_same (λ p. contains-visible_items db offset_key (s.files p) k v) ps
            ∙ any-keep (λ p. has_value (db.get_value (s.files p) k) v && not (k == offset_key))
                (is_listed actives topic is_global) s.dbs),
        map-chain (visible_items db offset_key) s.files first (visible_keys db offset_key) ps
            (visible_keys_lem db offset_key),
        map-chain (visible_items db offset_key) s.files second (visible_values db offset_key) ps
            (visible_values_lem db offset_key),
        sum_of-length (visible_items db offset_key) s.files (size_of db offset_key) ps
            (size_of_lem db offset_key),
      )
