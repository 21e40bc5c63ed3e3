-- ===== src/Base/Results.antt =====
-- What a function that may throw an `AppError` returns. `hang` stands for a loop that never ends.
use mathlib.Core.Path.{◌≡◌, refl}
use mathlib.Core.Bool.{Bool, true, false}

-- The codes of packages/contracts/src/errors.ts that the modelled functions throw, a plain `Error`
-- (`internal_error`), and `hang`.
pub data ErrorCode : Type 0 where
  invalid_money currency_mismatch invalid_percentage : ErrorCode
  invalid_local_time no_employee_available invalid_status_transition : ErrorCode
  payment_not_refundable not_found internal_error provider_error hang : ErrorCode
  slot_unavailable outside_booking_window idempotency_key_reused validation_failed : ErrorCode
  booking_not_cancellable booking_not_reschedulable request_already_decided : ErrorCode
  forbidden_role : ErrorCode

pub data Outcome {ℓ} (A : Type ℓ) : Type ℓ where
  ok : A → Outcome A
  err : ErrorCode → Outcome A

-- What comes behind a throw is skipped.
infixl 5 ◌>>=◌
abbrev pub ◌>>=◌ {ℓ κ} : {A : Type ℓ} {B : Type κ} → Outcome A → (A → Outcome B) → Outcome B
err code >>= next = err code
ok value >>= next = next value

-- A result that was returned is one result.
pub ok_injective {ℓ} : {A : Type ℓ} {a b : A} → ok a ≡ ok b → a ≡ b
ok_injective h = cc

-- A chain that returned, taken apart.
pub data Chain {ℓ κ} {A : Type ℓ} {B : Type κ} (m : Outcome A) (f : A → Outcome B) (b : B)
    : Type (ℓ ⊔ κ) where
  chain : (a : A) → m ≡ ok a → f a ≡ ok b → Chain m f b

pub Chain-of {ℓ κ} :
    {A : Type ℓ} {B : Type κ} (m : Outcome A) (f : A → Outcome B) {b : B}
    → (m >>= f) ≡ ok b
    → Chain m f b
Chain-of (ok a) f h = chain a refl h
Chain-of (err e) f h = cc

-- A test that throws unless it holds.
abbrev pub guard : Bool → ErrorCode → Outcome (Unit {0})
guard false code = err code
guard true code = ok tt

infixl 5 ◌>>◌
abbrev pub ◌>>◌ {κ} : {B : Type κ} → Outcome (Unit {0}) → Outcome B → Outcome B
err code >> next = err code
ok value >> next = next
