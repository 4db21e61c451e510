-- ===== src/Types.antt =====
-- faust/types/tuples.py: topic partitions, and the reference count of a message.
use text.Mathlib.TextEquality.{eq_iff}
use faust.Common.{
  ℕ, ◌+◌, ◌-◌, ◌≡◌, ◌↔◌, Bool, true, false, ◌&&◌, String, arith, if◌then◌else◌, ◌==◌, Eq, nat_eq,
  string_eq, nat_beq,
}

pub record Tp : Type 0 where
  pub topic : String
  pub partition : ℕ

abbrev tp_beq : Tp → Tp → Bool
tp_beq a b = a.topic == b.topic && nat_beq a.partition b.partition

pub tp_beq_iff : (a b : Tp) → (tp_beq a b ≡ true) ↔ (a ≡ b)
tp_beq_iff a b = ground (arith, eq_iff a.topic b.topic)

instance abbrev pub tp_eq : Eq Tp
tp_eq = record { beq = tp_beq; beq_iff = tp_beq_iff }

-- What a message keeps of its delivery; `generation_id`, sizes and payload play no part here.
-- `ident` tells the objects apart.
pub record Message : Type 0 where
  pub ident : ℕ
  pub tp : Tp
  pub offset : ℕ
  pub acked : Bool
  pub refcount : ℕ

unfoldable pub incref : Message → ℕ → Message
incref m n = record m { refcount = m.refcount + n }

-- `max(self.refcount - n, 0)`
unfoldable pub decref : Message → ℕ → Message
decref m n = record m { refcount = m.refcount - n }

-- `Message.ack`: the new message, and whether the last reference is gone, so that
-- `on_final_ack` is called.
unfoldable pub ack : Message → ℕ → Message × Bool
unfolding decref
ack m n = if m.acked then (m, false) else (let m' = decref m n in (m', m'.refcount == 0))

-- `Message.on_final_ack`; a `ConsumerMessage` asks the consumer instead.
unfoldable pub on_final_ack : Message → Message × Bool
on_final_ack m = (record m { acked = true }, true)
