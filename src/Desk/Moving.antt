-- ===== src/Desk/Moving.antt =====
-- booking-app/apps/api/src/booking/reschedule.service.ts, with `rotate` of
-- booking-app/apps/api/src/manage/management-token.service.ts. Both employees' advisory locks make the
-- decision one step as far as calendars go.
use shape_and_flow.Base.{
  ℕ, ◌+◌, ◌*◌, Bool, true, false, ◌&&◌, not, Option, none, some, List, [], ◌∷◌, map, any, find, leb,
  ◌==◌, if◌then◌else◌, Outcome, ok, err, not_found, internal_error, slot_unavailable,
  booking_not_reschedulable, request_already_decided, guard, ◌>>=◌, ◌>>◌,
}
use shape_and_flow.Base.Text.{Text}
use shape_and_flow.Interval.{Interval}
use shape_and_flow.LocalTime.{Luxon, instant_to_local_date}
use shape_and_flow.Availability.Types.{ServiceSnapshot, AvailabilitySnapshot}
use shape_and_flow.Availability.Candidates.{minute_ms, block_of}
use shape_and_flow.Availability.Engine.{is_slot_bookable}
use shape_and_flow.Booking.Status.{confirmed, canceled_by_business, same_status, assert_transition}
use shape_and_flow.Booking.Saga.{grace_ms}
use shape_and_flow.Calendar.Rows.{
  OrganizationSettings, AppointmentRow, TokenRow, rescheduled_event, reminder_schedule,
}
use shape_and_flow.Calendar.Snapshot.{load, load_for_slot}
use shape_and_flow.Calendar.Writes.{create_appointment, moved}
use shape_and_flow.Calendar.Insertion.{assert_within_booking_window}
use shape_and_flow.Desk.Rows.{
  undecided, approved, rejected, is_open, RescheduleRequest, move_received, move_decided, Desk,
}
use shape_and_flow.Desk.Cancelling.{load_booking, change_status}

pub record RequestRescheduleInput : Type 0 where
  pub booking_id : ℕ
  pub requested_starts_at : ℕ
  pub requested_employee_id : Option Text

pub record DecideRescheduleInput : Type 0 where
  pub request_id : ℕ
  pub approves : Bool

-- `asSoldSnapshot`: the appointment keeps the times it was sold with.
abbrev pub as_sold_snapshot : AvailabilitySnapshot → ServiceSnapshot → AvailabilitySnapshot
as_sold_snapshot snapshot sold = record snapshot {
  service = record sold { id = snapshot.service.id };
}

-- The employee that was asked for, or the one that the booking has.
abbrev pub employee_or : Option Text → Text → Text
employee_or none id = id
employee_or (some asked) id = asked

-- The tests on the booking, before the transaction and under its lock.
unfoldable pub movable : Desk → ℕ → ℕ → Outcome AppointmentRow
unfolding load_booking
movable s now id = do
  booking ← load_booking s id
  guard (same_status booking.status confirmed) booking_not_reschedulable
  guard (not (leb booking.span.start now)) booking_not_reschedulable
  ok booking

-- `reschedule_requests_one_open`.
abbrev pub is_open_move : ℕ → RescheduleRequest → Bool
is_open_move id r = r.booking_id == id && is_open r.decision

-- The transaction of `requestByCustomer`.
unfoldable pub open_move : Desk → ℕ → RequestRescheduleInput → Outcome (ℕ × Desk)
unfolding movable
open_move s now input = do
  booking ← movable s now input.booking_id
  guard (not (any (is_open_move booking.id) s.reschedule_requests)) booking_not_reschedulable
  ok (
    s.next_request,
    record s {
      reschedule_requests =
          record {
            id = s.next_request;
            booking_id = booking.id;
            requested_starts_at = input.requested_starts_at;
            requested_employee_id = input.requested_employee_id;
            decision = undecided;
            resulting_booking_id = none;
          }
          ∷ s.reschedule_requests;
      notices = move_received s.next_request input.requested_starts_at ∷ s.notices;
      next_request = s.next_request + 1;
    },
  )

-- `lockRequest`.
unfoldable pub lock_move : Desk → ℕ → Outcome RescheduleRequest
lock_move s id = elim (find (λ r. r.id == id) s.reschedule_requests) [
  | none ↦ err not_found
  | some request ↦ guard (is_open request.decision) request_already_decided >> ok request
]

-- `writeDecision`.
abbrev pub decide_move : RescheduleRequest → Bool → Option ℕ → RescheduleRequest
decide_move r approves booking_id = record r {
  decision = (if approves then approved else rejected);
  resulting_booking_id = booking_id;
}

unfoldable pub update_move : ℕ → Bool → Option ℕ → List RescheduleRequest → List RescheduleRequest
update_move id approves booking_id [] = []
update_move id approves booking_id (r ∷ rs) =
    if r.id == id
    then decide_move r approves booking_id ∷ rs
    else r ∷ update_move id approves booking_id rs

-- `rotate`: the live tokens of the one booking are revoked, and the other gets one.
abbrev pub revoke : ℕ → TokenRow → TokenRow
revoke booking_id t = if t.booking_id == booking_id then record t { is_revoked = true } else t

unfoldable pub rotate : ℕ → ℕ → ℕ → List TokenRow → List TokenRow
rotate old_id new_id ends_at tokens =
    record { booking_id = new_id; expires_at = ends_at + grace_ms; is_revoked = false }
    ∷ map (revoke old_id) tokens

-- `financialRootBookingId ?? id`.
abbrev pub root_of : AppointmentRow → ℕ
root_of a = elim a.financial_root [ none ↦ a.id | some root ↦ root ]

-- The replacement, with what was sold.
unfoldable pub replacement : AppointmentRow → ℕ → Text → ℕ → Interval → AppointmentRow
replacement booking id employee_id starts_at block = record booking {
  id = id;
  employee_id = employee_id;
  span = record {
    start = starts_at;
    end = starts_at + booking.service.duration_minutes * minute_ms;
  };
  block = block;
  status = confirmed;
  expires_at = none;
  idempotency_key_id = none;
  rescheduled_from = some booking.id;
  financial_root = some (root_of booking);
}

-- What is written once the replacement stands.
unfoldable pub finish_move : Desk → RescheduleRequest → AppointmentRow → AppointmentRow → Desk
unfolding change_status rotate update_move
finish_move s request booking new =
    let t = change_status s booking canceled_by_business in
    record t {
      calendar = record t.calendar {
        history = moved new.id none confirmed ∷ t.calendar.history;
        tokens = rotate booking.id new.id new.span.end t.calendar.tokens;
        outbox = reminder_schedule new.id ∷ rescheduled_event new.id booking.id ∷ t.calendar.outbox;
      };
      reschedule_requests = update_move request.id true (some new.id) t.reschedule_requests;
      notices = move_decided request.id true ∷ t.notices;
    }

unfoldable pub swap :
    Desk → RescheduleRequest → AppointmentRow → Text → Interval → Outcome (AppointmentRow × Desk)
unfolding replacement create_appointment assert_transition finish_move
swap s request booking employee_id block = do
  assert_transition none confirmed
  let new = replacement booking s.calendar.next_id employee_id request.requested_starts_at block
  calendar ← create_appointment (record s.calendar { next_id = s.calendar.next_id + 1 }) new
  assert_transition (some booking.status) canceled_by_business
  ok (new, finish_move (record s { calendar = calendar }) request booking new)

module _ (luxon : Luxon) (organization : OrganizationSettings) (now : ℕ) where
  -- `assertPlausible`.
  unfoldable pub assert_plausible : Desk → AppointmentRow → Text → ℕ → Outcome (Unit {0})
  unfolding load is_slot_bookable instant_to_local_date
  assert_plausible s booking employee_id starts_at = do
    date ← instant_to_local_date luxon starts_at organization.zone
    snapshot ←
        load luxon organization now s.calendar booking.service.id (some employee_id) date date
    free ← is_slot_bookable luxon (as_sold_snapshot snapshot booking.service) employee_id starts_at
    guard free slot_unavailable

  -- What `requestByCustomer` asks before its transaction.
  unfoldable pub check_move : Desk → RequestRescheduleInput → Outcome (Unit {0})
  unfolding movable assert_within_booking_window assert_plausible
  check_move s input = do
    booking ← movable s now input.booking_id
    allowed ← assert_within_booking_window organization now input.requested_starts_at
    assert_plausible s booking (employee_or input.requested_employee_id booking.employee_id)
        input.requested_starts_at

  unfoldable pub request_by_customer : Desk → RequestRescheduleInput → Outcome (ℕ × Desk)
  unfolding check_move open_move
  request_by_customer s input = check_move s input >> open_move s now input

  -- `approve`.
  unfoldable pub approve_move : Desk → RescheduleRequest → Outcome (AppointmentRow × Desk)
  unfolding load_booking load_for_slot is_slot_bookable block_of swap
  approve_move s request = do
    booking ← load_booking s request.booking_id
    guard (same_status booking.status confirmed) booking_not_reschedulable
    let employee_id = employee_or request.requested_employee_id booking.employee_id
    snapshot ←
        load_for_slot luxon organization now s.calendar booking.service.id employee_id
          request.requested_starts_at
    free ←
        is_slot_bookable luxon (as_sold_snapshot snapshot booking.service) employee_id
          request.requested_starts_at
    guard free slot_unavailable
    elim (block_of booking.service request.requested_starts_at) [
      | none ↦ err internal_error
      | some block ↦ swap s request booking employee_id block
    ]

  -- `decide`.
  unfoldable pub decide_reschedule : Desk → DecideRescheduleInput → Outcome (Option ℕ × Desk)
  unfolding lock_move approve_move update_move
  decide_reschedule s input = do
    request ← lock_move s input.request_id
    if not input.approves
        then ok (
          none,
          record s {
            reschedule_requests = update_move request.id false none s.reschedule_requests;
            notices = move_decided request.id false ∷ s.notices;
          },
        )
        else (approve_move s request >>= λ done. ok (some done.0.id, done.1))
