-- ===== src/Prelude/Outcome.antt =====
-- HO_STATUS of include/_hobase.h, and the result of an operation that may fail.
use mathlib.Core.Path.{◌≡◌, refl, ap}
use mathlib.Core.Logic.{◌⊎◌, inl, inr}
use mathlib.Core.Bool.{Bool, true, false}

pub data Status : Type 0 where
  ec_success ec_failure ec_illegal_argument ec_not_enough_memory ec_unreachable : Status
  ec_not_supported ec_out_of_resource ec_invalid_state ec_unsupported_machine ec_timeout : Status

-- `ok a` is EC_SUCCESS with what the operation hands out; `err s` leaves the state as it was.
pub data Result {ℓ} (A : Type ℓ) : Type ℓ where
  err : Status → Result A
  ok : A → Result A

module _ {ℓ κ} {A : Type ℓ} {B : Type κ} where
  infixl 5 ◌>>=◌
  abbrev pub ◌>>=◌ : Result A → (A → Result B) → Result B
  err status >>= next = err status
  ok value >>= next = next value

infixl 5 ◌>>◌
abbrev pub ◌>>◌ {κ} : {B : Type κ} → Result (Unit {0}) → Result B → Result B
check >> next = check >>= λ _. next

-- `if (!test) return code;`, and HO_KASSERT(test, code), where `err` is the panic.
abbrev pub require : Bool → Status → Result (Unit {0})
require true e = ok tt
require false e = err e

pub Result-cases {ℓ} :
    {A : Type ℓ} (r : Result A) → ((a : A) × (r ≡ ok a)) ⊎ ((e : Status) × (r ≡ err e))
Result-cases (ok a) = inl (a, refl)
Result-cases (err e) = inr (e, refl)

-- The value of a result is determined by it.
pub ok-injective {ℓ} : {A : Type ℓ} {a b : A} → ok a ≡ ok b → a ≡ b
ok-injective {a = a} e = ap (λ r. elim r [ ok x ↦ x | err f ↦ a ]) e
