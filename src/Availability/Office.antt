-- ===== src/Availability/Office.antt =====
-- booking-app/apps/api/src/domain/availability/office-view.ts: the office may book what customers
-- may, and more.
use shape_and_flow.Base.{
  ℕ, ◌+◌, ◌*◌, ◌≤◌, ◌≡◌, sym, subst, List, In, ok, Chain-of, chain, ok_injective, Bool-cases, inl,
  inr, arith,
}
use shape_and_flow.Base.Text.{Text}
use shape_and_flow.LocalTime.{Luxon}
use shape_and_flow.Availability.Types.{
  ServiceSnapshot, EmployeeSnapshot, AvailabilitySnapshot, SkippedLocalTime, Segment,
}
use shape_and_flow.Availability.Candidates.{includes, hour_ms}
use shape_and_flow.Availability.Engine.{employee_slots_for, segments_for}
use shape_and_flow.Availability.Accept.{TakesTime}
use shape_and_flow.Availability.Offer.{SegmentOffer}
use shape_and_flow.Availability.Employee.{employee_slots_for_iff}

-- `OFFICE_HORIZON_DAYS`.
abbrev pub office_horizon_days : ℕ
office_horizon_days = 3650

unfoldable pub as_office_snapshot : AvailabilitySnapshot → AvailabilitySnapshot
as_office_snapshot snapshot = record snapshot {
  settings = record snapshot.settings {
    minimum_notice_hours = 0;
    booking_horizon_days = office_horizon_days;
  };
}

-- `earliestStart` of `generateAvailability`.
abbrev pub earliest_start_of : AvailabilitySnapshot → ℕ
earliest_start_of snapshot = snapshot.now + snapshot.settings.minimum_notice_hours * hour_ms

-- An offer with a notice is one with a shorter notice.
earlier_offer :
    {luxon : Luxon} {employee : EmployeeSnapshot} {date zone : Text} {service : ServiceSnapshot}
    {late early step : ℕ} {segment : Segment} {t : ℕ}
    → SegmentOffer luxon employee date zone service late step segment t
    → early ≤ late
    → SegmentOffer luxon employee date zone service early step segment t
earlier_offer o le = record {
  opens = o.opens;
  closes = o.closes;
  opens_at = o.opens_at;
  closes_at = o.closes_at;
  minute = o.minute;
  on_grid = o.on_grid;
  minute_at = o.minute_at;
  noticed = omega (arith, o.noticed);
  block = o.block;
  block_eq = o.block_eq;
  inside = o.inside;
  breaks_clear = o.breaks_clear;
  not_busy = o.not_busy;
}

-- Whatever an employee's calendar offers to customers on a date it offers to the office too, for a
-- service that takes some time.
pub as_office_snapshot-offers :
    (luxon : Luxon) (snapshot : AvailabilitySnapshot) (employee : EmployeeSnapshot) (date : Text)
    (t : ℕ) (customers office : List ℕ × List SkippedLocalTime)
    → TakesTime snapshot.service
    → employee_slots_for luxon snapshot employee date (earliest_start_of snapshot) ≡ ok customers
    → employee_slots_for luxon
        (as_office_snapshot snapshot)
        employee
        date
        (earliest_start_of (as_office_snapshot snapshot))
      ≡ ok office
    → In t customers.0
    → In t office.0
unfolding employee_slots_for as_office_snapshot
as_office_snapshot-offers luxon snapshot employee date t customers office p hc ho i =
    elim (Bool-cases (includes date employee.time_off_dates)) [
      | inl off ↦
          absurd (subst (λ r. In t r.0) (sym (ok_injective (rw (off, employee_slots_for) at hc))) i)
      | inr here ↦
          elim (Chain-of (segments_for luxon employee date snapshot.zone) _
            (rw (here, employee_slots_for) at hc)) [
              | chain segments hs _ ↦
                  let (segment, is, o) =
                    (employee_slots_for_iff luxon snapshot employee date
                        (earliest_start_of snapshot) t segments customers p here hs hc).0
                      i in
                  (employee_slots_for_iff luxon (as_office_snapshot snapshot) employee date
                      (earliest_start_of (as_office_snapshot snapshot)) t segments office p here hs
                      ho).1
                    (segment, is, earlier_offer o (omega arith))
            ]
    ]
