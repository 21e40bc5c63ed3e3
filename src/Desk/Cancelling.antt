-- ===== src/Desk/Cancelling.antt =====
-- booking-app/apps/api/src/booking/cancellation.service.ts: the two sides that cancel. A transaction
-- is one step, which the lock on the booking's row makes it; reasons and timestamps are not kept.
use shape_and_flow.Base.{
  ℕ, ◌+◌, Bool, true, ◌&&◌, not, Option, none, some, ◌∷◌, map, any, leb, ◌==◌, if◌then◌else◌,
  Outcome, ok, err, not_found, booking_not_cancellable, forbidden_role, guard, ◌>>=◌, ◌>>◌,
}
use shape_and_flow.Base.Int.{ℤ, pos, ltb_ℤ}
use shape_and_flow.Money.{Money, from_cents}
use shape_and_flow.Money.Fee.{CancellationFeeSettings, compute_suggested_retained_amount}
use shape_and_flow.Refund.Service.{
  RefundAmount, additional, cumulative_target, RefundReservationResult, reserve_in_transaction,
}
use shape_and_flow.Booking.Status.{
  BookingStatus, confirmed, canceled_by_customer, canceled_by_business, same_status,
  assert_transition,
}
use shape_and_flow.Calendar.Rows.{AppointmentRow, canceled_event}
use shape_and_flow.Calendar.Writes.{find_appointment, update_appointments, set_status, moved}
use shape_and_flow.Desk.Rows.{
  undecided, approved, rejected, is_open, CancellationRequest, RescheduleRequest, received, Desk,
  books,
}
use shape_and_flow.Desk.Paid.{paid_total}

-- `loadCancellable`, and the read behind `lock`.
unfoldable pub load_booking : Desk → ℕ → Outcome AppointmentRow
load_booking s id = elim (find_appointment id s.calendar.appointments) [
  | none ↦ err not_found
  | some booking ↦ ok booking
]

-- `lock`, and the test on the status that follows it everywhere.
unfoldable pub lock_confirmed : Desk → ℕ → Outcome AppointmentRow
unfolding load_booking
lock_confirmed s id = do
  booking ← load_booking s id
  guard (same_status booking.status confirmed) booking_not_cancellable
  ok booking

-- The update of the status, with its row of history.
unfoldable pub change_status : Desk → AppointmentRow → BookingStatus → Desk
unfolding update_appointments
change_status s booking to = record s {
  calendar = record s.calendar {
    appointments = update_appointments booking.id (set_status to) s.calendar.appointments;
    history = moved booking.id (some booking.status) to ∷ s.calendar.history;
  };
}

abbrev pub announce : Desk → ℕ → Option ℕ → Desk
announce s booking_id refund_id = record s {
  calendar = record s.calendar { outbox = canceled_event booking_id refund_id ∷ s.calendar.outbox };
}

-- `reserveRefund`: what moves money needs the right to.
unfoldable pub reserve_refund :
    Desk → ℕ → RefundAmount → Bool → Bool → Outcome (RefundReservationResult × Desk)
unfolding reserve_in_transaction
reserve_refund s booking_id amount lenient may_issue_refunds =
    reserve_in_transaction (books s)
      (record { booking_id = booking_id; amount = amount; lenient = lenient })
    >>= λ reserved.
        (if ltb_ℤ (pos 0) reserved.0.additional_amount_cents && not may_issue_refunds
          then err forbidden_role
          else ok (reserved.0, record s { ledger = reserved.1 }))

pub data CancelByCustomerResult : Type 0 where
  canceled : Option ℕ → Money → CancelByCustomerResult
  requested : ℕ → Money → CancelByCustomerResult

-- The transaction of `cancelImmediately`, given what was paid when it was last read.
unfoldable pub cancel_immediately :
    Desk → AppointmentRow → Money → Outcome (CancelByCustomerResult × Desk)
unfolding lock_confirmed assert_transition change_status reserve_refund from_cents
cancel_immediately s booking paid = do
  current ← lock_confirmed s booking.id
  assert_transition (some current.status) canceled_by_customer
  reserved ←
      reserve_refund (change_status s current canceled_by_customer) booking.id
        (cumulative_target paid.amount_cents) true true
  expected ← from_cents reserved.0.additional_amount_cents booking.currency
  ok (canceled reserved.0.refund_id expected, announce reserved.1 booking.id reserved.0.refund_id)

-- `cancellation_requests_one_open`.
abbrev pub is_open_for : ℕ → CancellationRequest → Bool
is_open_for id r = r.booking_id == id && is_open r.decision

-- The transaction of `openRequest`; the amount is kept as the customer was shown it.
unfoldable pub open_request :
    Desk → AppointmentRow → Money → Outcome (CancelByCustomerResult × Desk)
unfolding lock_confirmed
open_request s booking suggested = do
  current ← lock_confirmed s booking.id
  guard (not (any (is_open_for booking.id) s.requests)) booking_not_cancellable
  ok (
    requested s.next_request suggested,
    record s {
      requests =
          record {
            id = s.next_request;
            booking_id = booking.id;
            suggested_retained_cents = suggested.amount_cents;
            decision = undecided;
            retained_cents = none;
            refund_id = none;
          }
          ∷ s.requests;
      notices = received s.next_request suggested.amount_cents ∷ s.notices;
      next_request = s.next_request + 1;
    },
  )

-- What `cancelByCustomer` finds before its transaction: the booking and what was paid, or what a late
-- cancellation would keep.
pub data CancelPlan : Type 0 where
  at_once late : AppointmentRow → Money → CancelPlan

unfoldable pub plan_cancellation : CancellationFeeSettings → ℕ → Desk → ℕ → Outcome CancelPlan
unfolding load_booking paid_total compute_suggested_retained_amount
plan_cancellation settings now s id = do
  booking ← load_booking s id
  guard (same_status booking.status confirmed) booking_not_cancellable
  guard (not (leb booking.span.start now)) booking_not_cancellable
  paid ← paid_total s booking.id booking.currency
  policy ←
      compute_suggested_retained_amount
        (record { paid = paid; starts_at = booking.span.start; now = now; settings = settings })
  ok (if policy.fee_applies then late booking policy.suggested_retained else at_once booking paid)

unfoldable pub carry_out : Desk → CancelPlan → Outcome (CancelByCustomerResult × Desk)
unfolding cancel_immediately open_request
carry_out s (at_once booking paid) = cancel_immediately s booking paid
carry_out s (late booking suggested) = open_request s booking suggested

-- `cancelByCustomer`, where nothing comes between its read and its transaction.
unfoldable pub cancel_by_customer :
    CancellationFeeSettings → ℕ → Desk → ℕ → Outcome (CancelByCustomerResult × Desk)
unfolding plan_cancellation carry_out
cancel_by_customer settings now s id = plan_cancellation settings now s id >>= carry_out s

-- `closeOpenRequests`.
abbrev pub close_request : ℕ → CancellationRequest → CancellationRequest
close_request id r = if is_open_for id r then record r { decision = approved } else r

abbrev pub close_reschedule : ℕ → RescheduleRequest → RescheduleRequest
close_reschedule id r =
    if r.booking_id == id && is_open r.decision then record r { decision = rejected } else r

unfoldable pub close_open_requests : Desk → ℕ → Desk
close_open_requests s booking_id = record s {
  requests = map (close_request booking_id) s.requests;
  reschedule_requests = map (close_reschedule booking_id) s.reschedule_requests;
}

pub record CancelByBusinessInput : Type 0 where
  pub booking_id : ℕ
  pub may_issue_refunds : Bool
  pub refund_amount_cents : Option ℤ

-- The refund that the office typed; a zero is let pass.
unfoldable pub refund_typed : Desk → CancelByBusinessInput → Outcome (Option ℕ × Desk)
unfolding reserve_refund
refund_typed s input = elim input.refund_amount_cents [
  | none ↦ ok (none, s)
  | some cents ↦
      reserve_refund s input.booking_id (additional cents) (not (ltb_ℤ (pos 0) cents))
        input.may_issue_refunds
      >>= λ reserved. ok (reserved.0.refund_id, reserved.1)
]

unfoldable pub cancel_by_business : Desk → CancelByBusinessInput → Outcome (Option ℕ × Desk)
unfolding lock_confirmed assert_transition change_status refund_typed close_open_requests
cancel_by_business s input = do
  current ← lock_confirmed s input.booking_id
  assert_transition (some current.status) canceled_by_business
  paid_back ← refund_typed (change_status s current canceled_by_business) input
  ok (paid_back.0, announce (close_open_requests paid_back.1 current.id) current.id paid_back.0)
