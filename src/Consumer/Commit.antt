-- ===== src/Consumer/Commit.antt =====
-- `commit` of faust/transport/consumer.py and the methods below it. What the broker, the
-- producer and the transaction manager do is the functions `publish` (the attached messages
-- were sent, or `ProducerSendError`) and `commit_offsets` (the result of the commit).
pub mod Monotone
use faust.Common.{
  ℕ, zero, suc, ◌+◌, ◌-◌, ◌≤◌, ◌<◌, ◌≡◌, refl, sym, ap, ◌∙◌, Bool, true, false, not, ◌&&◌, ◌||◌,
  List, [], ◌∷◌, ◌++◌, Option, none, some, arith, if◌then◌else◌, ◌==◌, nat_eq, string_eq, ltb,
  contains, keep, map, String, Bool-cases, inl, inr,
}
use faust.Common.Dict.{Dict, get, put, get-put}
use faust.Types.{Tp, tp_eq, tp_beq_iff}
use faust.Consumer.{Consumer, get_default, get_default-put, update}
use faust.Consumer.Intervals.{IntervalTree}
use faust.Consumer.Offsets.{Pending, new_offset}

-- A set of topics and topic partitions.
pub record Topics : Type 0 where
  pub tps : List Tp
  pub names : List String

-- `committed is None or bool(offset) and offset > committed`
unfoldable pub should_commit : Option ℕ → ℕ → Bool
should_commit none offset = true
should_commit (some committed) offset = not (offset == 0) && ltb committed offset

-- `commit_offsets[tp] = offset` for an offset that may be committed
abbrev pub record_offset : Option ℕ → Option ℕ → Tp → Dict Tp ℕ → Dict Tp ℕ
record_offset committed none tp offsets = offsets
record_offset committed (some offset) tp offsets =
    if should_commit committed offset then put offsets tp offset else offsets

-- The offsets of partitions that are still assigned; the others are discarded.
unfoldable pub committable : List Tp → Dict Tp ℕ → Dict Tp ℕ
committable assignment [] = []
committable assignment ((tp, offset) ∷ rest) =
    let others = committable assignment rest in
    if contains assignment tp then (tp, offset) ∷ others else others

abbrev pub committed_entries : Dict Tp ℕ → Dict Tp (Option ℕ)
committed_entries offsets = map (λ e. (e.0, some e.1)) offsets

module _ (it : IntervalTree) where
  open it use {Tree, empty}

  unfoldable pub filter_tps_with_pending_acks : Consumer it → Option Topics → List Tp
  filter_tps_with_pending_acks c none = map (λ d. d.0) c.acked
  filter_tps_with_pending_acks c (some topics) =
      keep (λ tp. contains topics.tps tp || contains topics.names tp.topic) (map (λ d. d.0) c.acked)

  abbrev pending_of : Consumer it → Tp → Pending it
  pending_of c tp = record {
    acked = get_default c.acked tp [];
    acked_index = get_default c.acked_index tp [];
    gap = get_default c.gap tp empty;
  }

  -- `self._new_offset(tp)`, with the partition's values written back.
  unfoldable pub new_offset_of : Consumer it → Tp → Consumer it × Option ℕ
  new_offset_of c tp =
      let (offset, p) = new_offset it (get_default c.committed_offset tp none) (pending_of c tp) in
      (
        record c {
          acked = put c.acked tp p.acked;
          acked_index = put c.acked_index tp p.acked_index;
          gap = put c.gap tp p.gap;
        },
        offset,
      )

  unfoldable pub filter_committable_offsets :
      Consumer it → List Tp → Dict Tp ℕ → Consumer it × Dict Tp ℕ
  unfolding new_offset_of
  filter_committable_offsets c [] offsets = (c, offsets)
  filter_committable_offsets c (tp ∷ tps) offsets =
      let (c', offset) = new_offset_of c tp in
      filter_committable_offsets c' tps
        (record_offset (get_default c.committed_offset tp none) offset tp offsets)

  -- `if not committable_offsets: return False`, and the commit
  unfoldable pub commit_committable :
      (Dict Tp ℕ → Bool) → Consumer it → Dict Tp ℕ → Consumer it × Bool
  commit_committable broker c [] = (c, false)
  commit_committable broker c (e ∷ es) = (
    record c { committed_offset = update c.committed_offset (committed_entries (e ∷ es)) },
    broker (e ∷ es),
  )

  unfoldable pub commit_offsets :
      (Dict Tp ℕ → Bool) → Consumer it → List Tp → Dict Tp ℕ → Consumer it × Bool
  unfolding commit_committable
  commit_offsets broker c assignment offsets =
      commit_committable broker c (committable assignment offsets)

  -- `if commit_offsets:`. The result; `none` is a result of `False` with the consumer crashed, as
  -- the attached messages could not be sent.
  unfoldable pub commit_collected :
      (Dict Tp ℕ → Bool)
      → (Dict Tp ℕ → Bool)
      → Consumer it
      → List Tp
      → Dict Tp ℕ
      → Consumer it × Option Bool
  unfolding commit_offsets
  commit_collected publish broker c assignment [] = (c, some false)
  commit_collected publish broker c assignment (e ∷ es) =
      if publish (e ∷ es)
      then (let (c', did) = commit_offsets broker c assignment (e ∷ es) in (c', some did))
      else (c, none)

  unfoldable pub commit_tps :
      (Dict Tp ℕ → Bool)
      → (Dict Tp ℕ → Bool)
      → Consumer it
      → List Tp
      → List Tp
      → Consumer it × Option Bool
  unfolding filter_committable_offsets commit_collected
  commit_tps publish broker c assignment tps =
      let (c', offsets) = filter_committable_offsets c tps [] in
      commit_collected publish broker c' assignment offsets

  unfoldable pub force_commit :
      (Dict Tp ℕ → Bool)
      → (Dict Tp ℕ → Bool)
      → Consumer it
      → List Tp
      → Option Topics
      → Consumer it × Option Bool
  unfolding commit_tps filter_tps_with_pending_acks
  force_commit publish broker c assignment topics =
      commit_tps publish broker c assignment (filter_tps_with_pending_acks c topics)

  -- `client_only` has no group, and who finds a commit under way waits for it and does nothing.
  unfoldable pub commit :
      (Dict Tp ℕ → Bool)
      → (Dict Tp ℕ → Bool)
      → Bool
      → Bool
      → Consumer it
      → List Tp
      → Option Topics
      → Consumer it × Option Bool
  unfolding force_commit
  commit publish broker client_only under_way c assignment topics =
      if client_only || under_way
      then (c, some false)
      else force_commit publish broker c assignment topics
