-- ===== src/Tables/Slots.antt =====
-- The keys of `_partition_timestamp_keys`: a partition and a timestamp.
use faust.Common.{ℕ, ◌≡◌, ◌↔◌, ap, Bool, true, ◌&&◌, Eq, nat_beq, arith}
use faust.Common.Int.{ℤ, ℤ-ext, pos_part, neg_part}

pub record Slot : Type 0 where
  pub partition : ℕ
  pub end : ℤ

abbrev pub int_beq : ℤ → ℤ → Bool
int_beq a b = nat_beq (pos_part a) (pos_part b) && nat_beq (neg_part a) (neg_part b)

pub int_beq_iff : (a b : ℤ) → (int_beq a b ≡ true) ↔ (a ≡ b)
int_beq_iff a b =
    (λ h. ℤ-ext a b (ground (arith, h)), λ p. ground (arith, ap pos_part p, ap neg_part p))

abbrev pub slot_beq : Slot → Slot → Bool
slot_beq s t = nat_beq s.partition t.partition && int_beq s.end t.end

pub slot_beq_iff : (s t : Slot) → (slot_beq s t ≡ true) ↔ (s ≡ t)
slot_beq_iff s t = (
  λ h. same (ground (arith, h)) ((int_beq_iff s.end t.end).0 (ground (arith, h))),
  λ p. ground (
    arith,
    ap (λ (r : Slot). r.partition) p,
    (int_beq_iff s.end t.end).1 (ap (λ (r : Slot). r.end) p),
  ),
)
  where
    same : s.partition ≡ t.partition → s.end ≡ t.end → s ≡ t
    same p q = λ i. record { partition = p i; end = q i }

instance abbrev pub int_eq : Eq ℤ
int_eq = record { beq_iff = int_beq_iff; beq = int_beq }

instance abbrev pub slot_eq : Eq Slot
slot_eq = record { beq_iff = slot_beq_iff; beq = slot_beq }
