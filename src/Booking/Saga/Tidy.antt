-- ===== src/Booking/Saga/Tidy.antt =====
-- What is always so of the bookings that wait for a payment or have got one.
use shape_and_flow.Base.{
  ℕ, ◌+◌, ◌≤◌, ◌≡◌, Bool, true, false, Option, none, some, List, [], ◌∷◌, All, ◌==◌, ◌||◌,
  if◌then◌else◌,
}
use shape_and_flow.Booking.Status.{
  BookingStatus, pending_payment, expiring, same_status, can_transition,
}
use shape_and_flow.Booking.Saga.{
  BookingStore, BookingRecord, ManagementToken, BookingEvent, booking_confirmed,
}

-- The booking still waits for its payment.
abbrev pub awaits : BookingStatus → Bool
awaits s = same_status s pending_payment || same_status s expiring

abbrev pub as_number : Bool → ℕ
as_number true = 1
as_number false = 0

abbrev pub has_value {ℓ} : {A : Type ℓ} → Option A → Bool
has_value none = false
has_value (some a) = true

abbrev pub tokens_of : ℕ → List ManagementToken → ℕ
tokens_of id [] = 0
tokens_of id (t ∷ ts) = (if t.booking_id == id then 1 else 0) + tokens_of id ts

abbrev confirms : ℕ → BookingEvent → ℕ
confirms id (booking_confirmed k) = if k == id then 1 else 0
confirms id _ = 0

abbrev pub confirmations_of : ℕ → List BookingEvent → ℕ
confirmations_of id [] = 0
confirmations_of id (e ∷ es) = confirms id e + confirmations_of id es

-- A booking that waits has a due time, and no other has; it has no token and no confirmation yet,
-- and none ever has two.
pub record IsTidyRow (s : BookingStore) (id : ℕ) (b : BookingRecord) : Type 0 where
  pub due : has_value b.expires_at ≡ awaits b.status
  pub one_token : tokens_of id s.tokens + as_number (awaits b.status) ≤ 1
  pub one_confirmation : confirmations_of id s.outbox + as_number (awaits b.status) ≤ 1

-- Every booking is so, and every move in the history is one of the permitted.
pub record IsTidy (s : BookingStore) : Type 0 where
  pub rows : (id : ℕ) (b : BookingRecord) → s.bookings id ≡ some b → IsTidyRow s id b
  pub moves : All (λ c. can_transition (some c.from_status) c.to_status ≡ true) s.history
