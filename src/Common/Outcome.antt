-- ===== src/Common/Outcome.antt =====
-- Exceptions as values.
use mathlib.Core.Path.{◌≡◌, refl, ap}
use mathlib.Core.Bool.{Bool}
use faust.Common.Tests.{if◌then◌else◌}

-- `out_of_fuel` is no exception of the program: a loop of the model was given too few rounds.
pub data Error : Type 0 where
  assertion_error key_error stop_iteration runtime_error value_error invalid_state io_error : Error
  not_implemented type_error queue_empty queue_full out_of_fuel : Error

-- What a call of the program comes to.
pub data Result {ℓ} (A : Type ℓ) : Type ℓ where
  err : Error → Result A
  ok : A → Result A

-- `assert`, or a guard that raises
abbrev pub check : Bool → Error → Result (Unit {0})
check holds error = if holds then ok tt else err error

-- A block goes on with a value, and ends at the first exception.
module _ {ℓ κ} {A : Type ℓ} {B : Type κ} where
  infixl 5 ◌>>=◌
  abbrev pub ◌>>=◌ : Result A → (A → Result B) → Result B
  err error >>= next = err error
  ok value >>= next = next value

  -- A block that comes to a value had one from its first call.
  pub >>=-eq-ok :
      (first : Result A) (next : A → Result B) {b : B}
      → (first >>= next) ≡ ok b
      → (value : A) × (first ≡ ok value) × (next value ≡ ok b)
  >>=-eq-ok (err error) next h = cc
  >>=-eq-ok (ok value) next h = (value, refl, h)

module _ {κ} {B : Type κ} where
  infixl 5 ◌>>◌
  abbrev pub ◌>>◌ : Result (Unit {0}) → Result B → Result B
  checked >> rest = checked >>= λ _. rest

pub ok-injective {ℓ} : {A : Type ℓ} {a b : A} → ok a ≡ ok b → a ≡ b
ok-injective {A} {a} {b} e = ap (value_or a) e
  where
    value_or : A → Result A → A
    value_or d (err error) = d
    value_or d (ok value) = value
