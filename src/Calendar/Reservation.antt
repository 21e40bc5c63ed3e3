-- ===== src/Calendar/Reservation.antt =====
-- booking-app/apps/api/src/booking/reservation.service.ts: the choice of the employee and the
-- reservation. The employee's advisory lock makes the insertion one step.
use shape_and_flow.Base.{
  ℕ, ◌+◌, ◌*◌, ◌&&◌, not, Option, none, some, List, [], ◌∷◌, map, filter, length, ltb, leb,
  if◌then◌else◌, Outcome, ok, err, slot_unavailable, ◌>>=◌,
}
use shape_and_flow.Base.Text.{Text, text_eqb}
use shape_and_flow.LocalTime.{
  Luxon, instant_to_local_date, add_local_days, wall_clock_to_instant_or_throw,
}
use shape_and_flow.Availability.Types.{AvailabilitySnapshot}
use shape_and_flow.Availability.Candidates.{includes, minute_ms}
use shape_and_flow.Availability.Engine.{is_slot_bookable}
use shape_and_flow.Selection.{EmployeeCandidate, select_employee}
use shape_and_flow.Booking.Status.{is_blocking}
use shape_and_flow.Calendar.Rows.{OrganizationSettings, CalendarStore}
use shape_and_flow.Calendar.Snapshot.{load, load_for_slot, load_service}
use shape_and_flow.Calendar.Insertion.{
  ReserveActor, ReserveInput, ReserveResult, assert_within_booking_window, customer, for_actor,
  is_office, office, write_booking,
}

module _ (luxon : Luxon) (organization : OrganizationSettings) (now : ℕ) where
  -- `loadCandidates`.
  unfoldable pub load_candidates : CalendarStore → List Text → ℕ → Outcome (List EmployeeCandidate)
  unfolding instant_to_local_date wall_clock_to_instant_or_throw add_local_days is_blocking
  load_candidates s ids starts_at = do
    date ← instant_to_local_date luxon starts_at organization.zone
    day_start ← wall_clock_to_instant_or_throw luxon date 0 organization.zone
    next ← add_local_days luxon date 1 organization.zone
    day_end ← wall_clock_to_instant_or_throw luxon next 0 organization.zone
    ok (
        map
          (λ e. record {
            employee_id = e.id;
            bookings_that_day = length (
                filter
                  (λ a.
                    text_eqb a.employee_id e.id
                    && is_blocking a.status
                    && leb day_start a.span.start
                    && ltb a.span.start day_end)
                  s.appointments);
            display_order = e.display_order;
          })
          (filter (λ e. includes e.id ids) s.employees))

  -- `.filter((employeeId) => isSlotBookable(...))`.
  unfoldable pub free_employees : AvailabilitySnapshot → ℕ → List Text → Outcome (List Text)
  unfolding is_slot_bookable
  free_employees snapshot starts_at [] = ok []
  free_employees snapshot starts_at (id ∷ ids) = do
    free ← is_slot_bookable luxon snapshot id starts_at
    later ← free_employees snapshot starts_at ids
    ok (if free then id ∷ later else later)

  unfoldable pub resolve_employee : CalendarStore → ReserveInput → Outcome Text
  unfolding load free_employees load_candidates select_employee instant_to_local_date
  resolve_employee s input = elim input.employee_id [
    | some id ↦ ok id
    | none ↦ instant_to_local_date luxon input.starts_at organization.zone >>= λ date.
        load luxon organization now s input.service_id none date date >>= λ snapshot.
        free_employees snapshot input.starts_at (map (λ e. e.employee_id) snapshot.employees)
        >>= λ free. elim free [
          | [] ↦ err slot_unavailable
          | id ∷ ids ↦ load_candidates s (id ∷ ids) input.starts_at >>= select_employee
        ]
  ]

  -- `insert` and `insertOnce`; a collision of references or of a customer's first two bookings is
  -- tried again from the start, and leaves nothing behind.
  unfoldable pub insert_once :
      CalendarStore → ReserveInput → Text → Option ℕ → Outcome (ReserveResult × CalendarStore)
  unfolding load_for_slot is_slot_bookable write_booking
  insert_once s input employee_id expires_at = do
    snapshot ← load_for_slot luxon organization now s input.service_id employee_id input.starts_at
    free ← is_slot_bookable luxon (for_actor snapshot input.actor) employee_id input.starts_at
    if not free
        then err slot_unavailable
        else write_booking s input employee_id snapshot.service expires_at

  -- `expiresAt`: an office booking does not expire.
  abbrev pub expiry_of : ReserveActor → Option ℕ
  expiry_of customer = some (now + organization.reservation_ttl_minutes * minute_ms)
  expiry_of office = none

  abbrev pub check_window : ReserveInput → Outcome (Unit {0})
  check_window input =
      if is_office input.actor
      then ok tt
      else assert_within_booking_window organization now input.starts_at

  -- What precedes the transaction, the choice of the employee included, reads the store as it was
  -- `seen` then; the insertion reads and writes the store that the lock leaves to it.
  unfoldable pub reserve :
      CalendarStore → CalendarStore → ReserveInput → Outcome (ReserveResult × CalendarStore)
  unfolding load_service assert_within_booking_window resolve_employee insert_once
  reserve seen s input = do
    service ← load_service seen input.service_id
    allowed ← check_window input
    employee_id ← resolve_employee seen input
    insert_once s input employee_id (expiry_of input.actor)
