-- ===== src/Availability/Engine.antt =====
-- booking-app/apps/api/src/domain/availability/engine.ts. A function that pushes onto `skipped`
-- returns what it pushes beside its result. Durations are milliseconds.
use shape_and_flow.Base.{
  ℕ, ◌+◌, ◌*◌, Bool, false, Option, none, some, List, [], ◌∷◌, ◌++◌, map, ◌==◌, if◌then◌else◌, any,
  filter, find, Outcome, ok, ◌>>=◌,
}
use shape_and_flow.Base.Text.{Text, text_eqb, text_ltb}
use shape_and_flow.Interval.{Interval, subtract}
use shape_and_flow.LocalTime.{
  Luxon, WallClockResult, placed, unplaced, wall_clock_to_instant, weekday_of,
  instant_to_local_date, add_local_days, each_local_date,
}
use shape_and_flow.Availability.Types.{
  ServiceSnapshot, BreakSnapshot, EmployeeSnapshot, AvailabilitySnapshot, DaySlots,
  SkippedLocalTime, AvailabilityResult, Segment,
}
use shape_and_flow.Availability.Candidates.{
  is_closed_kind, includes, weekday_number, extra_segments, hours_segment, grid_minutes, minute_ms,
  hour_ms, offers, StartMap, add_starts, slots_of, first_day_has,
}

module _ (luxon : Luxon) where
  unfoldable pub segments_for : EmployeeSnapshot → Text → Text → Outcome (List Segment)
  unfolding extra_segments hours_segment text_eqb weekday_of
  segments_for employee date zone =
      let exceptions = filter (λ x. text_eqb x.date date) employee.exceptions in
      let extra = extra_segments exceptions in
      if any (λ x. is_closed_kind x.kind) exceptions then ok [] else elim extra [
        | s ∷ more ↦ ok (s ∷ more)
        | [] ↦ weekday_of luxon date zone >>= λ day. ok (
            map hours_segment
              (filter (λ h. weekday_number h.weekday == weekday_number day) employee.working_hours))
      ]

  module _ (employee : EmployeeSnapshot) (date zone : Text) where
    -- The push onto `skipped` where a wall clock could not be placed.
    unfoldable pub report : ℕ → WallClockResult → List SkippedLocalTime
    report minute (placed instant) = []
    report minute (unplaced why) =
        record { employee_id = employee.employee_id; date = date; minute = minute; reason = why }
        ∷ []

    -- A break in the loop over `segment.breaks`; `none` sets `hasUnplaceableBreak`.
    unfoldable pub break_interval : WallClockResult → WallClockResult → Option Interval
    break_interval (placed from) (placed to) = some (record { start = from; end = to })
    break_interval _ _ = none

    unfoldable pub add_break : Option Interval → Option (List Interval) → Option (List Interval)
    add_break (some i) (some rest) = some (i ∷ rest)
    add_break _ _ = none

    unfoldable pub place_breaks :
        List BreakSnapshot → Outcome (Option (List Interval) × List SkippedLocalTime)
    unfolding report break_interval add_break wall_clock_to_instant
    place_breaks [] = ok (some [], [])
    place_breaks (rest ∷ more) = do
      from ← wall_clock_to_instant luxon date rest.start_minute zone
      to ← wall_clock_to_instant luxon date rest.end_minute zone
      later ← place_breaks more
      ok (
        add_break (break_interval from to) later.0,
        report rest.start_minute from ++ (report rest.end_minute to ++ later.1),
      )

    module _ (service : ServiceSnapshot) (earliest_start : ℕ) where
      -- The push onto `starts`.
      unfoldable pub add_offer : List Interval → WallClockResult → List ℕ → List ℕ
      unfolding offers
      add_offer pieces (unplaced why) starts = starts
      add_offer pieces (placed t) starts =
          if offers service earliest_start pieces employee.busy t then t ∷ starts else starts

      -- The loop over the grid.
      unfoldable pub grid_slots : List Interval → List ℕ → Outcome (List ℕ × List SkippedLocalTime)
      unfolding add_offer report wall_clock_to_instant
      grid_slots pieces [] = ok ([], [])
      grid_slots pieces (minute ∷ more) = do
        candidate ← wall_clock_to_instant luxon date minute zone
        later ← grid_slots pieces more
        ok (add_offer pieces candidate later.0, report minute candidate ++ later.1)

      module _ (step : ℕ) where
        -- The rest of a segment's round, given its breaks; a break that cannot be placed ends it.
        unfoldable pub free_slots :
            Segment
            → Interval
            → List SkippedLocalTime
            → Option (List Interval)
            → Outcome (List ℕ × List SkippedLocalTime)
        unfolding grid_slots grid_minutes subtract
        free_slots segment hours skips none = ok ([], skips)
        free_slots segment hours skips (some holes) = do
          minutes ← grid_minutes segment step
          found ← grid_slots (subtract hours holes) minutes
          ok (found.0, skips ++ found.1)

        -- The part of a segment's round behind its two bounds.
        unfoldable pub bounded_slots :
            Segment → WallClockResult → WallClockResult → Outcome (List ℕ × List SkippedLocalTime)
        unfolding place_breaks free_slots report
        bounded_slots segment (placed a) (placed b) = do
          breaks ← place_breaks segment.breaks
          free_slots segment (record { start = a; end = b }) breaks.1 breaks.0
        bounded_slots segment from to =
            ok ([], report segment.start_minute from ++ report segment.end_minute to)

        unfoldable pub segment_slots : Segment → Outcome (List ℕ × List SkippedLocalTime)
        unfolding bounded_slots wall_clock_to_instant
        segment_slots segment = do
          from ← wall_clock_to_instant luxon date segment.start_minute zone
          to ← wall_clock_to_instant luxon date segment.end_minute zone
          bounded_slots segment from to

        -- The loop over the segments.
        unfoldable pub segments_slots : List Segment → Outcome (List ℕ × List SkippedLocalTime)
        unfolding segment_slots
        segments_slots [] = ok ([], [])
        segments_slots (segment ∷ more) = do
          found ← segment_slots segment
          later ← segments_slots more
          ok (found.0 ++ later.0, found.1 ++ later.1)

  unfoldable pub employee_slots_for :
      AvailabilitySnapshot → EmployeeSnapshot → Text → ℕ → Outcome (List ℕ × List SkippedLocalTime)
  unfolding segments_for segments_slots text_eqb
  employee_slots_for snapshot employee date earliest_start =
      if includes date employee.time_off_dates
      then ok ([], [])
      else (segments_for employee date snapshot.zone >>= λ segments.
          segments_slots employee date snapshot.zone snapshot.service earliest_start
            snapshot.settings.scheduling_interval_minutes segments)

  module _ (snapshot : AvailabilitySnapshot) (earliest_start : ℕ) where
    -- The loop over `employees` on one date.
    unfoldable pub starts_on :
        Text → List EmployeeSnapshot → StartMap → Outcome (StartMap × List SkippedLocalTime)
    unfolding employee_slots_for add_starts
    starts_on date [] m = ok (m, [])
    starts_on date (employee ∷ more) m = do
      found ← employee_slots_for snapshot employee date earliest_start
      later ← starts_on date more (add_starts employee.employee_id found.0 m)
      ok (later.0, found.1 ++ later.1)

    -- The round of one date.
    unfoldable pub day_slots : Text → Outcome (DaySlots × List SkippedLocalTime)
    unfolding starts_on slots_of text_eqb
    day_slots date =
        if includes date snapshot.closed_dates
        then ok (record { date = date; slots = [] }, [])
        else (starts_on date snapshot.employees [] >>= λ found. ok (
          record {
            date = date;
            slots = slots_of (snapshot.service.duration_minutes * minute_ms) found.0;
          },
          found.1,
        ))

    -- The loop over the dates.
    unfoldable pub days_slots : List Text → Outcome AvailabilityResult
    unfolding day_slots
    days_slots [] = ok (record { days = []; skipped = [] })
    days_slots (date ∷ more) = do
      found ← day_slots date
      later ← days_slots more
      ok (record { days = found.0 ∷ later.days; skipped = found.1 ++ later.skipped })

  unfoldable pub generate_availability :
      AvailabilitySnapshot → Text → Text → Outcome AvailabilityResult
  unfolding days_slots instant_to_local_date add_local_days each_local_date text_ltb
  generate_availability snapshot from to = do
    today ← instant_to_local_date luxon snapshot.now snapshot.zone
    horizon_end ← add_local_days luxon today snapshot.settings.booking_horizon_days snapshot.zone
    let range_start = if text_ltb from today then today else from
    let range_end = if text_ltb horizon_end to then horizon_end else to
    let earliest_start = snapshot.now + snapshot.settings.minimum_notice_hours * hour_ms
    dates ← each_local_date luxon range_start range_end snapshot.zone
    days_slots snapshot earliest_start dates

  unfoldable pub is_slot_bookable : AvailabilitySnapshot → Text → ℕ → Outcome Bool
  unfolding generate_availability instant_to_local_date text_eqb
  is_slot_bookable snapshot employee_id starts_at =
      elim (find (λ e. text_eqb e.employee_id employee_id) snapshot.employees) [
        | none ↦ ok false
        | some employee ↦ instant_to_local_date luxon starts_at snapshot.zone >>= λ date.
            generate_availability (record snapshot { employees = employee ∷ [] }) date date
            >>= λ result. ok (first_day_has starts_at result.days)
      ]
