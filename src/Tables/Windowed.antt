-- ===== src/Tables/Windowed.antt =====
-- The operations of faust/tables/base.py on all the windows of a key. How a table gets and sets one
-- key (`_get_key`, `_set_key`) is an interface.
use faust.Common.{
  ◌≡◌, refl, sym, ap, ◌∙◌, false, List, [], ◌∷◌, if◌then◌else◌, Eq, contains, Bool-cases, inl, inr,
  arith,
}
use faust.Common.Members.{IsSetList}

-- A table that gets the value, or the default, of a key; and sets a key and leaves the others.
pub record KeyedTable (T : Type 0) (K : Type 0) (V : Type 0) (keys : Eq K) : Type 0 where
  pub get_key : T → K → V
  pub set_key : T → K → V → T
  pub get-set_key :
      (t : T) (k j : K) (v : V)
      → get_key (set_key t k v) j ≡ (if keys.beq k j then v else get_key t j)

module _ {T K V : Type 0} ⦃keys : Eq K⦄ (table : KeyedTable T K V keys) where
  -- `_apply_window_op`: the keys are the key with each of the ranges of its windows.
  unfoldable pub apply_window_op : (V → V → V) → T → List K → V → T
  apply_window_op op t [] value = t
  apply_window_op op t (k ∷ ks) value =
      apply_window_op op (table.set_key t k (op (table.get_key t k) value)) ks value

  -- `_set_windowed`
  unfoldable pub set_windowed : T → List K → V → T
  set_windowed t [] value = t
  set_windowed t (k ∷ ks) value = set_windowed (table.set_key t k value) ks value

  kept_lem :
      (op : V → V → V) (ks : List K) (t : T) (value : V) (j : K)
      → contains ks j ≡ false
      → table.get_key (apply_window_op op t ks value) j ≡ table.get_key t j
  unfolding apply_window_op
  kept_lem op [] t value j h = refl
  kept_lem op (k ∷ ks) t value j h =
      let away : keys.beq k j ≡ false = ground (arith, h) in
      kept_lem op ks (table.set_key t k (op (table.get_key t k) value)) value j (ground (arith, h))
      ∙ table.get-set_key t k j (op (table.get_key t k) value)
      ∙ rw away refl

  -- Where no window is there twice: an operation on all windows of a key gives each of them the
  -- operation's result on its own old value, setting them gives each the new value, and neither
  -- changes another key or window.
  pub windowed_lem :
      (op : V → V → V) (t : T) (ks : List K) (value : V) (j : K)
      → IsSetList ks
      → (table.get_key (apply_window_op op t ks value) j
          ≡ (if contains ks j then op (table.get_key t j) value else table.get_key t j))
        × (table.get_key (set_windowed t ks value) j
            ≡ (if contains ks j then value else table.get_key t j))
  unfolding apply_window_op set_windowed
  windowed_lem op t [] value j d = (refl, refl)
  windowed_lem op t (k ∷ ks) value j d =
      let v = op (table.get_key t k) value in
      let rest = windowed_lem op (table.set_key t k v) ks value j d.1 in
      let set_rest = windowed_lem op (table.set_key t k value) ks value j d.1 in
      elim (Bool-cases (keys.beq k j)) [
        | inl y ↦
            let same : k ≡ j = (keys.beq_iff k j).0 y in
            let gone : contains ks j ≡ false = ap (contains ks) (sym same) ∙ d.0 in
            let own : op (table.get_key t k) value ≡ op (table.get_key t j) value =
              ap (λ x. op (table.get_key t x) value) same in
            (
              ground (arith, rest.0, table.get-set_key t k j v, y, gone, own),
              ground (arith, set_rest.1, table.get-set_key t k j value, y, gone),
            )
        | inr n ↦ (
          ground (arith, rest.0, table.get-set_key t k j v, n),
          ground (arith, set_rest.1, table.get-set_key t k j value, n),
        )
      ]
