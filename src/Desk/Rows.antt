-- ===== src/Desk/Rows.antt =====
-- The rows of requests and of payments at the desk, beside those of the calendar and of the ledger.
use shape_and_flow.Base.{ℕ, Bool, true, false, Option, List, map}
use shape_and_flow.Base.Text.{Text}
use shape_and_flow.Base.Int.{ℤ}
use shape_and_flow.Refund.Store.{BookingRow, Store}
use shape_and_flow.Calendar.Rows.{AppointmentRow, CalendarStore}

pub data Decision : Type 0 where
  undecided approved rejected : Decision

abbrev pub is_open : Decision → Bool
is_open undecided = true
is_open _ = false

pub record CancellationRequest : Type 0 where
  pub id : ℕ
  pub booking_id : ℕ
  pub suggested_retained_cents : ℤ
  pub decision : Decision
  pub retained_cents : Option ℤ
  pub refund_id : Option ℕ

pub record RescheduleRequest : Type 0 where
  pub id : ℕ
  pub booking_id : ℕ
  pub requested_starts_at : ℕ
  pub requested_employee_id : Option Text
  pub decision : Decision
  pub resulting_booking_id : Option ℕ

pub record ManualPaymentRow : Type 0 where
  pub booking_id : ℕ
  pub amount_cents : ℤ
  pub currency : Text

-- Notification rows: a request to cancel was received, or decided with what is kept and what goes
-- back; a request to move was received for an instant, or decided.
pub data RequestNotice : Type 0 where
  received : ℕ → ℤ → RequestNotice
  decided : ℕ → Bool → ℤ → ℤ → RequestNotice
  move_received : ℕ → ℕ → RequestNotice
  move_decided : ℕ → Bool → RequestNotice

-- The bookings stand in the calendar; the ledger's own list of them is not read.
pub record Desk : Type 0 where
  pub calendar : CalendarStore
  pub ledger : Store
  pub manual_payments : List ManualPaymentRow
  pub requests : List CancellationRequest
  pub reschedule_requests : List RescheduleRequest
  pub notices : List RequestNotice
  pub next_request : ℕ

abbrev pub booking_row : AppointmentRow → BookingRow
booking_row a = record { id = a.id; financial_root = a.financial_root }

-- The ledger with the bookings of the calendar.
abbrev pub books : Desk → Store
books s = record s.ledger { bookings = map booking_row s.calendar.appointments }
