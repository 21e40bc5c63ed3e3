-- ===== src/Calendar/Snapshot.antt =====
-- booking-app/apps/api/src/public/availability-snapshot.service.ts: what the engine is given.
use shape_and_flow.Base.{
  ℕ, Bool, true, ◌&&◌, not, Option, none, some, List, [], ◌∷◌, ◌++◌, map, filter, find, length, ltb,
  leb, ◌==◌, if◌then◌else◌, Outcome, ok, err, not_found, internal_error, validation_failed, ◌>>=◌,
}
use shape_and_flow.Base.Text.{Text, text_eqb, text_leb}
use shape_and_flow.Base.Sort.{sort}
use shape_and_flow.Interval.{Interval}
use shape_and_flow.LocalTime.{
  Luxon, match_local_date, parse_local_date, instant_to_local_date, add_local_days, each_local_date,
}
use shape_and_flow.Availability.Types.{
  WorkingHoursSnapshot, ExceptionSnapshot, EmployeeSnapshot, AvailabilitySnapshot,
}
use shape_and_flow.Booking.Status.{is_blocking}
use shape_and_flow.Calendar.Rows.{
  OrganizationSettings, ServiceRow, EmployeeRow, AssignmentRow, TimeOffRow, CalendarStore,
}

-- `AVAILABILITY_MAX_RANGE_DAYS`.
abbrev pub max_range_days : ℕ
max_range_days = 31

-- `loadService`, of the snapshot service and of the reservation service alike.
unfoldable pub load_service : CalendarStore → Text → Outcome ServiceRow
load_service s id =
    elim (find (λ r. text_eqb r.snapshot.id id && not r.is_archived && r.is_bookable_online)
      s.services) [ none ↦ err not_found | some r ↦ ok r ]

-- The employee of an assignment can be booked online.
unfoldable pub bookable_employee : CalendarStore → Text → Option EmployeeRow
bookable_employee s id =
    find (λ e. text_eqb e.id id && e.is_bookable_online && not e.is_archived) s.employees

unfoldable pub linked_employee : CalendarStore → AssignmentRow → List EmployeeRow
unfolding bookable_employee
linked_employee s link = elim (bookable_employee s link.employee_id) [ none ↦ [] | some e ↦ e ∷ [] ]

unfoldable pub linked_employees : CalendarStore → List AssignmentRow → List EmployeeRow
unfolding linked_employee
linked_employees s [] = []
linked_employees s (link ∷ links) = linked_employee s link ++ linked_employees s links

-- `orderBy: [{ displayOrder }, { employeeId }]`.
abbrev pub by_display_order : EmployeeRow → EmployeeRow → Bool
by_display_order a b =
    if a.display_order == b.display_order
    then text_leb a.id b.id
    else ltb a.display_order b.display_order

abbrev pub is_asked : Option Text → Text → Bool
is_asked none id = true
is_asked (some asked) id = text_eqb id asked

unfoldable pub load_employee_ids : CalendarStore → Text → Option Text → Outcome (List Text)
unfolding linked_employees sort
load_employee_ids s service_id asked =
    let links =
      filter (λ l. text_eqb l.service_id service_id && is_asked asked l.employee_id)
        s.assignments in
    let ids = map (λ e. e.id) (sort by_display_order (linked_employees s links)) in
    elim asked [ none ↦ ok ids | some id ↦ elim ids [ [] ↦ err not_found | x ∷ xs ↦ ok (x ∷ xs) ] ]

unfoldable pub load_working_hours : CalendarStore → Text → List WorkingHoursSnapshot
load_working_hours s id =
    map (λ r. r.hours) (filter (λ r. text_eqb r.employee_id id) s.working_hours)

unfoldable pub load_exceptions : CalendarStore → Interval → Text → List ExceptionSnapshot
load_exceptions s window id =
    map
      (λ r. record {
        date = r.date.date;
        kind = r.kind;
        start_minute = r.start_minute;
        end_minute = r.end_minute;
      })
      (filter
        (λ r.
          text_eqb r.employee_id id
          && leb window.start r.date.instant
          && ltb r.date.instant window.end)
        s.exceptions)

-- The bookings that block and the blocked times, of one employee in the window.
unfoldable pub load_busy : CalendarStore → Interval → Text → List Interval
unfolding is_blocking
load_busy s window id =
    map (λ a. a.block)
      (filter
        (λ a.
          text_eqb a.employee_id id
          && is_blocking a.status
          && ltb a.block.start window.end
          && ltb window.start a.block.end)
        s.appointments)
    ++ map (λ b. b.span)
        (filter
          (λ b.
            text_eqb b.employee_id id && ltb b.span.start window.end && ltb window.start b.span.end)
          s.blocked_times)

unfoldable pub load_closed_dates : CalendarStore → Interval → List Text
load_closed_dates s window =
    map (λ d. d.date)
      (filter (λ d. leb window.start d.instant && ltb d.instant window.end) s.closed_days)

module _ (luxon : Luxon) where
  -- `new Date(`${date}T00:00:00.000Z`)`, which is midnight in UTC.
  unfoldable pub utc_midnight : Text → Outcome ℕ
  unfolding match_local_date
  utc_midnight date = elim (match_local_date date) [
    | none ↦ err internal_error
    | some (y, m, d) ↦ ok (luxon.value (luxon.utc y m d))
  ]

  -- `addLocalDays` with a negative number of days.
  unfoldable pub subtract_local_days : Text → ℕ → Text → Outcome Text
  unfolding parse_local_date
  subtract_local_days date days zone = parse_local_date luxon date zone >>= λ parsed.
      ok (luxon.to_iso_date (luxon.minus_days days parsed))

  -- `window`, with `WINDOW_PADDING_DAYS` being 1.
  unfoldable pub window_of : Text → Text → Text → Outcome Interval
  unfolding subtract_local_days add_local_days utc_midnight
  window_of from to zone = do
    padded_from ← subtract_local_days from 1 zone
    padded_to ← add_local_days luxon to 2 zone
    start ← utc_midnight padded_from
    end ← utc_midnight padded_to
    ok (record { start = start; end = end })

  -- The loop over the approved time off: all dates of each.
  unfoldable pub time_off_dates : Text → List TimeOffRow → Outcome (List Text)
  unfolding each_local_date
  time_off_dates zone [] = ok []
  time_off_dates zone (row ∷ rows) = do
    dates ← each_local_date luxon row.start_date.date row.end_date.date zone
    later ← time_off_dates zone rows
    ok (dates ++ later)

  unfoldable pub load_time_off : CalendarStore → Text → Interval → Text → Outcome (List Text)
  unfolding time_off_dates
  load_time_off s zone window id = time_off_dates zone (
      filter
        (λ r.
          text_eqb r.employee_id id
          && r.is_approved
          && ltb r.start_date.instant window.end
          && leb window.start r.end_date.instant)
        s.time_off)

  -- One entry of `employees`.
  unfoldable pub load_employee : CalendarStore → Text → Interval → Text → Outcome EmployeeSnapshot
  unfolding load_working_hours load_exceptions load_time_off load_busy
  load_employee s zone window id = load_time_off s zone window id >>= λ off. ok (record {
    employee_id = id;
    working_hours = load_working_hours s id;
    exceptions = load_exceptions s window id;
    time_off_dates = off;
    busy = load_busy s window id;
  })

  unfoldable pub load_employees :
      CalendarStore → Text → Interval → List Text → Outcome (List EmployeeSnapshot)
  unfolding load_employee
  load_employees s zone window [] = ok []
  load_employees s zone window (id ∷ ids) = do
    one ← load_employee s zone window id
    later ← load_employees s zone window ids
    ok (one ∷ later)

  module _ (organization : OrganizationSettings) (now : ℕ) where
    abbrev pub snapshot_of : ServiceRow → List Text → List EmployeeSnapshot → AvailabilitySnapshot
    snapshot_of service closed employees = record {
      zone = organization.zone;
      now = now;
      settings = organization.availability;
      service = service.snapshot;
      closed_dates = closed;
      employees = employees;
    }

    unfoldable pub load :
        CalendarStore → Text → Option Text → Text → Text → Outcome AvailabilitySnapshot
    unfolding each_local_date load_service load_employee_ids window_of load_employees
        load_closed_dates
    load s service_id asked from to = do
      dates ← each_local_date luxon from to organization.zone
      if ltb max_range_days (length dates)
          then err validation_failed
          else (load_service s service_id >>= λ service.
              load_employee_ids s service_id asked >>= λ ids. elim ids [
                | [] ↦ ok (snapshot_of service [] [])
                | x ∷ xs ↦ window_of from to organization.zone >>= λ window.
                    load_employees s organization.zone window (x ∷ xs) >>= λ employees.
                    ok (snapshot_of service (load_closed_dates s window) employees)
              ])

    unfoldable pub load_for_slot : CalendarStore → Text → Text → ℕ → Outcome AvailabilitySnapshot
    unfolding instant_to_local_date window_of load_service load_employee_ids load_employee
        load_closed_dates
    load_for_slot s service_id employee_id starts_at = do
      date ← instant_to_local_date luxon starts_at organization.zone
      window ← window_of date date organization.zone
      service ← load_service s service_id
      ids ← load_employee_ids s service_id (some employee_id)
      employee ← load_employee s organization.zone window employee_id
      ok (snapshot_of service (load_closed_dates s window) (employee ∷ []))
