-- ===== src/Stores/Changes.antt =====
-- What a key is given by a batch of changes to the in-memory store.
use faust.Common.{
  ◌≡◌, refl, ap, ◌∙◌, Bool, true, false, not, ◌&&◌, ◌||◌, List, [], ◌∷◌, Option, none, some, arith,
  if◌then◌else◌, ◌==◌, Eq, contains, Result, ok, ◌>>=◌, Bool-cases, inl, inr,
}
use faust.Common.Dict.{Dict, get, put, remove, get-put, get-remove}
use faust.Stores.{
  Change, Store, mark, forget, update, delete_if, delete_each, apply_changelog_batch,
}

abbrev pub is_there : {V : Type 0} → Option V → Bool
is_there none = false
is_there (some v) = true

-- The value of a key that may have been marked: a false value is then no value.
abbrev pub unless_false : {V : Type 0} → (V → Bool) → Bool → Option V → Option V
unless_false is_true marked none = none
unless_false is_true marked (some v) = if marked && not (is_true v) then none else some v

module _ {K : Type 0} ⦃e : Eq K⦄ where
  contains-mark : (keys : List K) (k j : K) → contains (mark keys k) j ≡ (k == j || contains keys j)
  contains-mark keys k j = ground (arith, contains-same keys k j, e.beq_iff k j)
    where
      contains-same : (xs : List K) (x y : K) → x ≡ y → contains xs x ≡ contains xs y
      contains-same xs x y p = ap (contains xs) p

module _ {K V : Type 0} ⦃e : Eq K⦄ where
  abbrev pub Marked : Dict K V → List K → Type 0
  Marked d [] = Unit
  Marked d (k ∷ keys) = (is_there (get d k) ≡ true) × (contains keys k ≡ false) × Marked d keys

  Marked-put :
      (d : Dict K V) (k : K) (v : V) (keys : List K) → Marked d keys → Marked (put d k v) keys
  Marked-put d k v [] h = tt
  Marked-put d k v (j ∷ keys) h =
      (ground (arith, get-put d k j v, h.0), h.1, Marked-put d k v keys h.2)

  Marked-remove :
      (d : Dict K V) (k : K) (keys : List K)
      → contains keys k ≡ false
      → Marked d keys
      → Marked (remove d k) keys
  Marked-remove d k [] n h = tt
  Marked-remove d k (j ∷ keys) n h = (
    ground (arith, get-remove d k j, h.0, e.beq_iff k j, e.beq_iff j k),
    h.1,
    Marked-remove d k keys (ground (arith, n)) h.2,
  )

  Marked-mark :
      (d : Dict K V) (k : K) (keys : List K)
      → is_there (get d k) ≡ true
      → Marked d keys
      → Marked d (mark keys k)
  Marked-mark d k keys t h = elim (Bool-cases (contains keys k)) [
    | inl y ↦ rw y h
    | inr n ↦ rw n (t, n, h)
  ]

  module _ {A B : Type 0} (to_key : A → K) (to_value : B → V) where
    -- The value of the last change of the key, `otherwise` where there is none.
    unfoldable pub last_value : Option V → List (Change A B) → K → Option V
    last_value otherwise [] k = otherwise
    last_value otherwise (c ∷ batch) k =
        last_value (if to_key c.key == k then some (to_value c.value) else otherwise) batch k

    -- Whether a change of the key has no message value.
    unfoldable pub has_tombstone : List (Change A B) → K → Bool
    has_tombstone [] k = false
    has_tombstone (c ∷ batch) k = c.message_is_none && (to_key c.key == k) || has_tombstone batch k

    get-update :
        (s : Store K V) (keys : List K) (batch : List (Change A B)) (k : K)
        → get (update to_key to_value s keys batch).0.entries k
          ≡ last_value (get s.entries k) batch k
    unfolding update last_value
    get-update s keys [] k = refl
    get-update s keys (c ∷ batch) k =
        get-update
          (record {
            entries = put s.entries (to_key c.key) (to_value c.value);
            key_partition = put s.key_partition (to_key c.key) c.partition;
          })
          (if c.message_is_none then mark keys (to_key c.key) else keys) batch k
        ∙ ap (λ o. last_value o batch k) (get-put s.entries (to_key c.key) k (to_value c.value))

    contains-update :
        (s : Store K V) (keys : List K) (batch : List (Change A B)) (k : K)
        → contains (update to_key to_value s keys batch).1 k
          ≡ (contains keys k || has_tombstone batch k)
    unfolding update has_tombstone
    contains-update s keys [] k = ground arith
    contains-update s keys (c ∷ batch) k =
        contains-update
          (record {
            entries = put s.entries (to_key c.key) (to_value c.value);
            key_partition = put s.key_partition (to_key c.key) c.partition;
          })
          (if c.message_is_none then mark keys (to_key c.key) else keys) batch k
        ∙ ground (arith, contains-mark keys (to_key c.key) k)

    Marked-update :
        (s : Store K V) (keys : List K) (batch : List (Change A B))
        → Marked s.entries keys
        → Marked
            (update to_key to_value s keys batch).0.entries
            (update to_key to_value s keys batch).1
    unfolding update
    Marked-update s keys [] h = h
    Marked-update s keys (c ∷ batch) h =
        let k = to_key c.key in
        let d = put s.entries k (to_value c.value) in
        let s' : Store K V = record {
          entries = d;
          key_partition = put s.key_partition k c.partition;
        } in
        let h' = Marked-put s.entries k (to_value c.value) keys h in
        let there : is_there (get d k) ≡ true =
          ground (arith, get-put s.entries k k (to_value c.value), e.beq_iff k k) in
        elim (Bool-cases c.message_is_none) [
          | inl y ↦ rw y (Marked-update s' (mark keys k) batch (Marked-mark d k keys there h'))
          | inr n ↦ rw n (Marked-update s' keys batch h')
        ]

  abbrev pub lookup : Result (Store K V) → K → Result (Option V)
  lookup r k = r >>= λ s. ok (get s.entries k)

  module _ (is_true : V → Bool) where
    delete_step :
        (s : Store K V) (j : K) (keys : List K) (k : K) (o : Option V)
        → get s.entries j ≡ o
        → is_there o ≡ true
        → contains keys j ≡ false
        → (lookup (delete_each is_true s keys) k
            ≡ ok (unless_false is_true (contains keys k) (get s.entries k)))
        → (lookup (delete_each is_true (forget s j) keys) k
            ≡ ok (unless_false is_true (contains keys k) (get (forget s j).entries k)))
        → lookup (delete_if is_true s j o >>= λ s'. delete_each is_true s' keys) k
          ≡ ok (unless_false is_true (j == k || contains keys k) (get s.entries k))
    delete_step s j keys k none q t n kept gone = absurd (cc)
    delete_step s j keys k (some v) q t n kept gone = elim (Bool-cases (is_true v)) [
      | inl y ↦ rw y (kept ∙ ground (arith, q, y, e.beq_iff j k))
      | inr z ↦ rw z (gone ∙ ground (arith, q, z, e.beq_iff j k, get-remove s.entries j k))
    ]

    lookup-delete_each :
        (s : Store K V) (keys : List K) (k : K)
        → Marked s.entries keys
        → lookup (delete_each is_true s keys) k
          ≡ ok (unless_false is_true (contains keys k) (get s.entries k))
    unfolding delete_each
    lookup-delete_each s [] k h = ground arith
    lookup-delete_each s (j ∷ keys) k h =
        delete_step s j keys k (get s.entries j) refl h.0 h.1 (lookup-delete_each s keys k h.2)
          (lookup-delete_each (forget s j) keys k (Marked-remove s.entries j keys h.1 h.2))

    -- Applying a batch of changes raises nothing. A key then has the value of its last change in
    -- the batch, or the one it had where the batch does not change it; but where a change of the
    -- key in the batch, last or not, has no message value and that value is false to Python, the
    -- key has no value.
    pub apply_changelog_batch_lem :
        {A B : Type 0} (to_key : A → K) (to_value : B → V) (s : Store K V)
        (batch : List (Change A B)) (k : K)
        → lookup (apply_changelog_batch to_key to_value is_true s batch) k
          ≡ ok (
              unless_false is_true
                (has_tombstone to_key to_value batch k)
                (last_value to_key to_value (get s.entries k) batch k))
    unfolding apply_changelog_batch
    apply_changelog_batch_lem to_key to_value s batch k =
        let u = update to_key to_value s [] batch in
        lookup-delete_each u.0 u.1 k (Marked-update to_key to_value s [] batch tt)
        ∙ ap ok (
            rw
              (
                contains-update to_key to_value s [] batch k,
                get-update to_key to_value s [] batch k,
              )
              refl)
