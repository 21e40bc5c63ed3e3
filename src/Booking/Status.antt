-- ===== src/Booking/Status.antt =====
-- booking-app/apps/api/src/booking/booking-status.machine.ts: which statuses block, and the
-- permitted moves.
use shape_and_flow.Base.{
  Bool, Option, none, some, List, [], ◌∷◌, any, ℕ, ◌==◌, if◌then◌else◌, Outcome, ok, err,
  invalid_status_transition,
}

pub data BookingStatus : Type 0 where
  pending_payment expiring confirmed expired payment_failed : BookingStatus
  canceled_by_customer canceled_by_business completed no_show : BookingStatus

-- `===` on statuses, by their places in the list above.
abbrev pub status_number : BookingStatus → ℕ
status_number pending_payment = 0
status_number expiring = 1
status_number confirmed = 2
status_number expired = 3
status_number payment_failed = 4
status_number canceled_by_customer = 5
status_number canceled_by_business = 6
status_number completed = 7
status_number no_show = 8

abbrev pub same_status : BookingStatus → BookingStatus → Bool
same_status a b = status_number a == status_number b

abbrev pub includes : BookingStatus → List BookingStatus → Bool
includes s xs = any (λ x. same_status x s) xs

unfoldable pub blocking_booking_statuses : List BookingStatus
blocking_booking_statuses = pending_payment ∷ expiring ∷ confirmed ∷ []

unfoldable pub terminal_booking_statuses : List BookingStatus
terminal_booking_statuses =
    expired ∷ payment_failed ∷ canceled_by_customer ∷ canceled_by_business ∷ completed ∷ no_show
    ∷ []

-- `TRANSITIONS`.
unfoldable pub transitions : BookingStatus → List BookingStatus
transitions pending_payment = expiring ∷ confirmed ∷ payment_failed ∷ []
transitions expiring = expired ∷ confirmed ∷ []
transitions confirmed = canceled_by_customer ∷ canceled_by_business ∷ completed ∷ no_show ∷ []
transitions expired = []
transitions payment_failed = []
transitions canceled_by_customer = []
transitions canceled_by_business = []
transitions completed = []
transitions no_show = []

unfoldable pub creatable : List BookingStatus
creatable = pending_payment ∷ confirmed ∷ []

unfoldable pub is_blocking : BookingStatus → Bool
unfolding blocking_booking_statuses
is_blocking status = includes status blocking_booking_statuses

unfoldable pub is_terminal : BookingStatus → Bool
unfolding terminal_booking_statuses
is_terminal status = includes status terminal_booking_statuses

unfoldable pub can_transition : Option BookingStatus → BookingStatus → Bool
unfolding creatable transitions
can_transition none to = includes to creatable
can_transition (some from) to = includes to (transitions from)

unfoldable pub assert_transition : Option BookingStatus → BookingStatus → Outcome (Unit {0})
unfolding can_transition
assert_transition from to = if can_transition from to then ok tt else err invalid_status_transition
