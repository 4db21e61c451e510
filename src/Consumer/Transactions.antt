-- ===== src/Consumer/Transactions.antt =====
-- `TransactionManager` of faust/transport/consumer.py: the transactions that a commit's offsets
-- belong to. The id of a transaction is known by the numbers in it, those of the topic's group and
-- of the partition; the groups are the assignor's.
use faust.Common.{
  ℕ, ◌≡◌, refl, sym, ap, ◌∙◌, Bool, false, ◌&&◌, List, [], ◌∷◌, Option, none, some, if◌then◌else◌,
  String, nat_eq, ◌==◌, Bool-cases, inl, inr, arith,
}
use mathlib.Core.Option.{some-injective}
use faust.Common.ListKeys.{list_eq}
use faust.Common.Dict.{Dict, get, put, get-put, HasDistinctKeys}
use faust.Types.{Tp, tp_eq}

abbrev pub offsets_or_new : Option (Dict Tp ℕ) → Dict Tp ℕ
offsets_or_new none = []
offsets_or_new (some offsets) = offsets

abbrev or_old : Option ℕ → Option ℕ → Option ℕ
or_old none old = old
or_old (some offset) old = some offset

or_old-none : (o : Option ℕ) → or_old o none ≡ o
or_old-none none = refl
or_old-none (some offset) = refl

module _ (group_for_topic : String → ℕ) where
  abbrev pub transactional_id : Tp → List ℕ
  transactional_id tp = group_for_topic tp.topic ∷ tp.partition ∷ []

  -- `by_transactional_id[transactional_id][tp] = offset`
  unfoldable pub by_transactional_id :
      Dict (List ℕ) (Dict Tp ℕ) → Dict Tp ℕ → Dict (List ℕ) (Dict Tp ℕ)
  by_transactional_id grouped [] = grouped
  by_transactional_id grouped ((tp, offset) ∷ offsets) =
      let id = transactional_id tp in
      by_transactional_id (put grouped id (put (offsets_or_new (get grouped id)) tp offset)) offsets

  -- `commit`, whose result is always true: what the producer is asked to commit, if anything.
  unfoldable pub commit_transactions : Dict Tp ℕ → Option (Dict (List ℕ) (Dict Tp ℕ))
  unfolding by_transactional_id
  commit_transactions [] = none
  commit_transactions (e ∷ offsets) = some (by_transactional_id [] (e ∷ offsets))

  abbrev pub in_transaction : Dict (List ℕ) (Dict Tp ℕ) → List ℕ → Tp → Option ℕ
  in_transaction grouped id tp = get (offsets_or_new (get grouped id)) tp

  in_transaction-put :
      (grouped : Dict (List ℕ) (Dict Tp ℕ)) (own id : List ℕ) (t tp : Tp) (offset : ℕ)
      → in_transaction (put grouped own (put (offsets_or_new (get grouped own)) t offset)) id tp
        ≡ (if own == id && t == tp then some offset else in_transaction grouped id tp)
  in_transaction-put grouped own id t tp offset =
      let mine = put (offsets_or_new (get grouped own)) t offset in
      elim (Bool-cases (own == id)) [
        | inl y ↦
            let same : own ≡ id = (list_eq.beq_iff own id).0 y in
            rw (get-put grouped own id mine, y)
              (get-put (offsets_or_new (get grouped own)) t tp offset
                ∙ ap (λ k. if t == tp then some offset else in_transaction grouped k tp) same)
        | inr n ↦ rw (get-put grouped own id mine, n) refl
      ]

  by_transactional_id_lem :
      (grouped : Dict (List ℕ) (Dict Tp ℕ)) (offsets : Dict Tp ℕ) (id : List ℕ) (tp : Tp)
      → HasDistinctKeys offsets
      → in_transaction (by_transactional_id grouped offsets) id tp ≡ (
          if transactional_id tp == id
          then or_old (get offsets tp) (in_transaction grouped id tp)
          else in_transaction grouped id tp)
  unfolding by_transactional_id get
  by_transactional_id_lem grouped [] id tp d = elim (Bool-cases (transactional_id tp == id)) [
    | inl y ↦ rw y refl
    | inr n ↦ rw n refl
  ]
  by_transactional_id_lem grouped ((t, offset) ∷ offsets) id tp d =
      let own = transactional_id t in
      let grouped' = put grouped own (put (offsets_or_new (get grouped own)) t offset) in
      let rest = by_transactional_id_lem grouped' offsets id tp d.1 in
      let one = in_transaction-put grouped own id t tp offset in
      elim (Bool-cases (t == tp)) [
        | inl y ↦
            let same : t ≡ tp = (tp_eq.beq_iff t tp).0 y in
            let gone : get offsets tp ≡ none = ap (get offsets) (sym same) ∙ d.0 in
            let mine : (transactional_id t == id) ≡ (transactional_id tp == id) =
              ap (λ u. transactional_id u == id) same in
            elim (Bool-cases (transactional_id tp == id)) [
              | inl yes_id ↦ rest ∙ rw (yes_id, gone, one, mine, yes_id, y) refl
              | inr no_id ↦ rest ∙ rw (no_id, one, mine, no_id) refl
            ]
        | inr n ↦
            let kept : in_transaction grouped' id tp ≡ in_transaction grouped id tp =
              one ∙ other (transactional_id t == id) n in
            rest ∙ rw (kept, n) refl
      ]
    where
      other :
          (b : Bool)
          → (t == tp) ≡ false
          → (if b && t == tp then some offset else in_transaction grouped id tp)
            ≡ in_transaction grouped id tp
      other b n = ground (arith, n)

  -- Where no partition is there twice, and the producer is asked to commit some transactions: a
  -- partition's offset is in the transaction of its topic's group and its number, and in no other
  -- transaction, and no transaction has another offset.
  pub commit_transactions_lem :
      (offsets : Dict Tp ℕ) (grouped : Dict (List ℕ) (Dict Tp ℕ)) (id : List ℕ) (tp : Tp)
      → HasDistinctKeys offsets
      → commit_transactions offsets ≡ some grouped
      → in_transaction grouped id tp ≡ (if transactional_id tp == id then get offsets tp else none)
  unfolding commit_transactions get
  commit_transactions_lem [] grouped id tp d e = absurd (cc)
  commit_transactions_lem (x ∷ offsets) grouped id tp d e =
      let same : by_transactional_id [] (x ∷ offsets) ≡ grouped =
        some-injective (by_transactional_id [] (x ∷ offsets)) grouped e in
      ap (λ g. in_transaction g id tp) (sym same)
      ∙ by_transactional_id_lem [] (x ∷ offsets) id tp d
      ∙ ap (λ o. if transactional_id tp == id then o else none) (or_old-none (get (x ∷ offsets) tp))
