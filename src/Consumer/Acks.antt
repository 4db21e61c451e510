-- ===== src/Consumer/Acks.antt =====
-- `ack`, `_add_gap` and the body of the loop of `_drain_messages` in faust/transport/consumer.py.
use faust.Common.{
  ℕ, ◌+◌, ◌-◌, ◌≤◌, ◌<◌, max, ◌≡◌, ap, ◌∙◌, Bool, true, false, not, ◌&&◌, List, [], ◌∷◌, ◌++◌,
  Option, none, some, arith, if◌then◌else◌, ◌==◌, nat_eq, ltb, leb, contains, include, difference,
  String, Bool-cases, inl, inr,
}
use faust.Common.Dict.{put}
use faust.Types.{Tp, tp_eq, Message}
use faust.Consumer.{Consumer, get_default, get_default-put_self}
use faust.Consumer.Intervals.{IntervalTree}

-- `committed is None or offset >= committed`
abbrev pub is_new : Option ℕ → ℕ → Bool
is_new none offset = true
is_new (some committed) offset = leb committed offset

-- `bool(r_offset)`
abbrev is_truthy_offset : Option ℕ → Bool
is_truthy_offset none = false
is_truthy_offset (some r) = not (r == 0)

abbrev offset_or_zero : Option ℕ → ℕ
offset_or_zero none = 0
offset_or_zero (some r) = r

contains-include : (xs : List ℕ) (x : ℕ) → contains (include xs x) x ≡ true
contains-include xs x = elim (Bool-cases (contains xs x)) [
  | inl e ↦ rw e e
  | inr e ↦ rw e (contains-snoc xs x)
]
  where
    contains-snoc : (ys : List ℕ) (y : ℕ) → contains (ys ++ y ∷ []) y ≡ true
    contains-snoc [] y = ground arith
    contains-snoc (z ∷ ys) y = ground (arith, contains-snoc ys y)

module _ (it : IntervalTree) where
  open it use {Tree, addi, merge_overlaps, empty, covers, covers_added, covers_merge}

  -- The consumer, the message, and the result. The topics that acks are enabled for are the
  -- conductor's.
  unfoldable pub ack : Consumer it → (String → Bool) → Message → Consumer it × Message × Bool
  ack c acks_enabled_for m =
      if m.acked
      then (c, m, false)
      else (let m' = record m { acked = true } in
          let index = get_default c.acked_index m.tp [] in
          if acks_enabled_for m.tp.topic
            && (is_new (get_default c.committed_offset m.tp none) m.offset
                && not (contains index m.offset))
          then (
            record c {
              unacked_messages = difference c.unacked_messages (m.ident ∷ []);
              acked_index = put c.acked_index m.tp (include index m.offset);
              acked = put c.acked m.tp (get_default c.acked m.tp [] ++ m.offset ∷ []);
              n_acked = c.n_acked + 1;
            },
            m',
            true,
          )
          else (c, m', false))

  unfoldable pub add_gap_to : Option ℕ → Tree → ℕ → ℕ → Tree
  add_gap_to none gap from to = if leb from to then merge_overlaps (addi gap from (to + 1)) else gap
  add_gap_to (some committed) gap from to =
      let from' = max from (committed + 1) in
      if leb from' to then merge_overlaps (addi gap from' (to + 1)) else gap

  unfoldable pub add_gap : Consumer it → Tp → ℕ → ℕ → Consumer it
  unfolding add_gap_to
  add_gap c tp from to = record c {
    gap =
        put c.gap tp (
          add_gap_to (get_default c.committed_offset tp none) (get_default c.gap tp empty) from to);
  }

  -- The gap before a message: what the offsets jumped over, if acks are enabled.
  unfoldable pub note_gap : Consumer it → (String → Bool) → Tp → ℕ → Option ℕ → Consumer it
  unfolding add_gap
  note_gap c acks_enabled_for tp offset r_offset =
      if ltb 1 (offset - offset_or_zero r_offset)
        && (is_truthy_offset r_offset && acks_enabled_for tp.topic)
      then add_gap c tp (offset_or_zero r_offset + 1) offset
      else c

  -- `commit_every` acknowledged messages make a commit due; then the count starts again.
  unfoldable pub commit_due : Consumer it → Option ℕ → Consumer it × Bool
  commit_due c none = (c, false)
  commit_due c (some every) =
      if leb every c.n_acked then (record c { n_acked = 0 }, true) else (c, false)

  -- One message of the loop. `commit` is the consumer's own, and `callback` hands the message
  -- over; both come back with the consumer as they leave it. The last component says whether the
  -- message was handed over or dropped.
  unfoldable pub drain_message :
      (Consumer it → Consumer it)
      → (Consumer it → Message → Consumer it)
      → (String → Bool)
      → Option ℕ
      → Consumer it
      → Message
      → Consumer it × Bool
  unfolding note_gap commit_due
  drain_message commit callback acks_enabled_for commit_every c m =
      let r_offset = get_default c.read_offset m.tp none in
      if is_new r_offset m.offset
      then (let c₁ = note_gap c acks_enabled_for m.tp m.offset r_offset in
          let (c₂, due) = commit_due c₁ commit_every in
          let c₃ = if due then commit c₂ else c₂ in
          let c₄ = callback c₃ m in
          (record c₄ { read_offset = put c₄.read_offset m.tp (some m.offset) }, true))
      else (c, false)

  abbrev index_of : Consumer it → Tp → List ℕ
  index_of c tp = get_default c.acked_index tp []

  ack-index :
      (c : Consumer it) (acks_enabled_for : String → Bool) (m : Message)
      → (ack c acks_enabled_for m).2 ≡ true
      → (ack c acks_enabled_for m).0.acked_index
        ≡ put c.acked_index m.tp (include (index_of c m.tp) m.offset)
  unfolding ack
  ack-index c acks m h = ground arith

  ack_known :
      (c : Consumer it) (acks_enabled_for : String → Bool) (m : Message)
      → contains (index_of c m.tp) m.offset ≡ true
      → ((ack c acks_enabled_for m).2 ≡ false) × ((ack c acks_enabled_for m).0 ≡ c)
  unfolding ack
  ack_known c acks m h = ground arith

  -- A message counts once: after an `ack` that counted, the same message or another one of the
  -- same partition and offset changes nothing and is refused.
  pub ack_once :
      (c : Consumer it) (acks_enabled_for : String → Bool) (m m' : Message)
      → m'.tp ≡ m.tp
      → m'.offset ≡ m.offset
      → (ack c acks_enabled_for m).2 ≡ true
      → ((ack (ack c acks_enabled_for m).0 acks_enabled_for m').2 ≡ false)
        × ((ack (ack c acks_enabled_for m).0 acks_enabled_for m').0 ≡ (ack c acks_enabled_for m).0)
  ack_once c acks m m' same_tp same_offset h =
      let c' = (ack c acks m).0 in
      let index = include (index_of c m.tp) m.offset in
      let stored : index_of c' m.tp ≡ index =
        ap (λ d. get_default d m.tp []) (ack-index c acks m h)
        ∙ get_default-put_self c.acked_index m.tp index [] in
      let known : contains (index_of c' m.tp) m.offset ≡ true =
        ap (λ xs. contains xs m.offset) stored ∙ contains-include (index_of c m.tp) m.offset in
      ack_known c' acks m' (rw (same_tp, same_offset) known)

  add_gap_to-covers :
      (committed : Option ℕ) (gap : Tree) (from to : ℕ)
      → 0 < to
      → from ≤ to
      → is_new committed (to - 1) ≡ true
      → covers (add_gap_to committed gap from to) to ≡ true
  unfolding add_gap_to
  add_gap_to-covers none gap from to p h k =
      let added = covers_added gap from (to + 1) to h (omega arith) in
      ground (arith, added, covers_merge (addi gap from (to + 1)) to)
  add_gap_to-covers (some c) gap from to p h k =
      let le : max from (c + 1) ≤ to = ground arith in
      let added = covers_added gap (max from (c + 1)) (to + 1) to le (omega arith) in
      ground (arith, added, covers_merge (addi gap (max from (c + 1)) (to + 1)) to)

  -- Where acks are enabled, the gap that is noted before a message whose offset jumps over at
  -- least one offset after a positive read offset, and is above the committed offset, takes in the
  -- message's own offset.
  pub note_gap-covers_message :
      (c : Consumer it) (acks_enabled_for : String → Bool) (tp : Tp) (r offset : ℕ)
      → 0 < r
      → r + 1 < offset
      → acks_enabled_for tp.topic ≡ true
      → is_new (get_default c.committed_offset tp none) (offset - 1) ≡ true
      → covers (get_default (note_gap c acks_enabled_for tp offset (some r)).gap tp empty) offset
        ≡ true
  unfolding note_gap add_gap_to
  note_gap-covers_message c acks tp r offset pos jump enabled fresh =
      let gap = get_default c.gap tp empty in
      let committed = get_default c.committed_offset tp none in
      let noted : note_gap c acks tp offset (some r) ≡ add_gap c tp (r + 1) offset = ground arith in
      let stored : get_default (add_gap c tp (r + 1) offset).gap tp empty
          ≡ add_gap_to committed gap (r + 1) offset =
        get_default-put_self c.gap tp (add_gap_to committed gap (r + 1) offset) empty in
      ap (λ d. covers (get_default d.gap tp empty) offset) noted
      ∙ ap (λ t. covers t offset) stored
      ∙ add_gap_to-covers committed gap (r + 1) offset (omega arith) (omega arith) fresh
