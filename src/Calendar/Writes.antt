-- ===== src/Calendar/Writes.antt =====
-- What the database does when bookings are written: the keys and the constraints of
-- booking-app/apps/api/prisma/migrations/20260731210500_calendar_constraints/migration.sql.
use shape_and_flow.Base.{
  ℕ, Bool, true, false, ◌&&◌, ◌||◌, not, Option, none, some, List, [], ◌∷◌, any, ◌==◌,
  if◌then◌else◌, find, Outcome, ok, err, slot_unavailable, internal_error,
}
use shape_and_flow.Base.Text.{Text, text_eqb}
use shape_and_flow.Interval.{Interval, overlaps, is_empty}
use shape_and_flow.Booking.Status.{
  BookingStatus, is_blocking, same_status, pending_payment, expiring,
}
use shape_and_flow.Calendar.Rows.{AppointmentRow, CalendarStore, HistoryRow}

abbrev pub has_value {ℓ} : {A : Type ℓ} → Option A → Bool
has_value none = false
has_value (some a) = true

abbrev pub same_truth : Bool → Bool → Bool
same_truth true b = b
same_truth false b = not b

-- `bookings_no_overlap`: a blocking row of one employee against another.
unfoldable pub clashes : Text → Interval → AppointmentRow → Bool
unfolding is_blocking overlaps
clashes employee block a =
    text_eqb a.employee_id employee && is_blocking a.status && overlaps block a.block

unfoldable pub is_excluded : AppointmentRow → List AppointmentRow → Bool
unfolding clashes
is_excluded row rows = is_blocking row.status && any (clashes row.employee_id row.block) rows

-- The three checks: both ranges hold some time, and a due time is there exactly while the booking
-- waits for its payment.
unfoldable pub meets_checks : AppointmentRow → Bool
meets_checks row =
    not (is_empty row.block)
    && not (is_empty row.span)
    && same_truth (has_value row.expires_at)
        (same_status row.status pending_payment || same_status row.status expiring)

-- `booking.create`. The services catch a violation of `bookings_no_overlap` around it and answer
-- that the slot is not available.
unfoldable pub create_appointment : CalendarStore → AppointmentRow → Outcome CalendarStore
unfolding meets_checks is_excluded
create_appointment s row =
    if not (meets_checks row)
    then err internal_error
    else if is_excluded row s.appointments
    then err slot_unavailable
    else ok (record s { appointments = row ∷ s.appointments })

abbrev pub find_appointment : ℕ → List AppointmentRow → Option AppointmentRow
find_appointment id = find (λ a. a.id == id)

-- `booking.update({ where: { id } })`, of the one row with the id.
unfoldable pub update_appointments :
    ℕ → (AppointmentRow → AppointmentRow) → List AppointmentRow → List AppointmentRow
update_appointments id change [] = []
update_appointments id change (a ∷ rows) =
    if a.id == id then change a ∷ rows else a ∷ update_appointments id change rows

abbrev pub set_status : BookingStatus → AppointmentRow → AppointmentRow
set_status status a = record a { status = status }

abbrev pub moved : ℕ → Option BookingStatus → BookingStatus → HistoryRow
moved id from to = record { booking_id = id; from_status = from; to_status = to }
