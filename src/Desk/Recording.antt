-- ===== src/Desk/Recording.antt =====
-- booking-app/apps/api/src/booking/attendance.service.ts and
-- booking-app/apps/api/src/payment/manual-payment.service.ts.
use shape_and_flow.Base.{
  ℕ, Bool, ◌||◌, not, some, ◌∷◌, leb, Outcome, ok, invalid_status_transition, guard, ◌>>=◌, ◌>>◌,
}
use shape_and_flow.Base.Int.{ℤ}
use shape_and_flow.Money.{from_cents}
use shape_and_flow.Refund.Service.{root_booking_id}
use shape_and_flow.Booking.Status.{
  BookingStatus, completed, no_show, expired, payment_failed, same_status, assert_transition,
}
use shape_and_flow.Calendar.Rows.{AppointmentRow}
use shape_and_flow.Desk.Rows.{Desk, books}
use shape_and_flow.Desk.Cancelling.{load_booking, change_status}

-- `settle`: the move, then the time, then the writes.
unfoldable pub settle_attendance : Desk → ℕ → BookingStatus → (AppointmentRow → Bool) → Outcome Desk
unfolding load_booking assert_transition change_status
settle_attendance s id to is_due = do
  booking ← load_booking s id
  assert_transition (some booking.status) to
  guard (is_due booking) invalid_status_transition
  ok (change_status s booking to)

unfoldable pub complete : Desk → ℕ → ℕ → Outcome Desk
unfolding settle_attendance
complete s now id = settle_attendance s id completed (λ b. leb b.span.end now)

unfoldable pub mark_no_show : Desk → ℕ → ℕ → Outcome Desk
unfolding settle_attendance
mark_no_show s now id = settle_attendance s id no_show (λ b. leb b.span.start now)

-- `record`: money that came another way, on the booking that the rest of the money is on.
unfoldable pub record_manual_payment : Desk → ℕ → ℤ → Outcome Desk
unfolding load_booking from_cents root_booking_id
record_manual_payment s id cents = do
  booking ← load_booking s id
  guard (not (same_status booking.status expired || same_status booking.status payment_failed))
      invalid_status_transition
  amount ← from_cents cents booking.currency
  root ← root_booking_id (books s) booking.id
  ok (record s {
    manual_payments =
        record { booking_id = root; amount_cents = amount.amount_cents; currency = amount.currency }
        ∷ s.manual_payments;
  })
