-- ===== src/Availability/Days.antt =====
-- What is so of every day that `generateAvailability` lists.
use shape_and_flow.Base.{
  ℕ, ◌*◌, ◌≡◌, refl, ap, subst, true, List, [], ◌∷◌, All, ok, Chain-of, chain, ok_injective,
  Bool-cases, inl, inr, if◌then◌else◌, arith,
}
use shape_and_flow.Base.Text.{Text, text_ltb}
use shape_and_flow.LocalTime.{Luxon, instant_to_local_date, add_local_days, each_local_date}
use shape_and_flow.Availability.Types.{
  EmployeeSnapshot, AvailabilitySnapshot, DaySlots, SkippedLocalTime, AvailabilityResult,
}
use shape_and_flow.Availability.Candidates.{StartMap, add_starts, includes, minute_ms}
use shape_and_flow.Availability.Engine.{
  employee_slots_for, starts_on, day_slots, days_slots, generate_availability,
}
use shape_and_flow.Availability.Order.{
  DistinctStarts, add_starts-DistinctStarts, IsRising, Lasts, slots_of-IsRising, slots_of-Lasts,
}

-- The slots rise, each lasts as long as the service, and there is none on a closed date.
pub record IsDay (snapshot : AvailabilitySnapshot) (day : DaySlots) : Type 0 where
  pub rising : IsRising day.slots
  pub lasting : Lasts (snapshot.service.duration_minutes * minute_ms) day.slots
  pub closed_empty : includes day.date snapshot.closed_dates ≡ true → day.slots ≡ []

module _ (luxon : Luxon) (snapshot : AvailabilitySnapshot) (earliest : ℕ) where
  starts_on-DistinctStarts :
      (date : Text) (es : List EmployeeSnapshot) (m : StartMap)
      (r : StartMap × List SkippedLocalTime)
      → DistinctStarts m
      → starts_on luxon snapshot earliest date es m ≡ ok r
      → DistinctStarts r.0
  unfolding starts_on
  starts_on-DistinctStarts date [] m r d h = subst DistinctStarts (ap (λ x. x.0) (ok_injective h)) d
  starts_on-DistinctStarts date (e ∷ es) m r d h =
      elim (Chain-of (employee_slots_for luxon snapshot e date earliest) _ h) [
        | chain found hf h1 ↦
            elim (Chain-of
              (starts_on luxon snapshot earliest date es (add_starts e.employee_id found.0 m)) _
              h1) [
                | chain later hl h2 ↦ subst DistinctStarts (ap (λ x. x.0) (ok_injective h2)) (
                    starts_on-DistinctStarts date es _ later
                      (add_starts-DistinctStarts e.employee_id found.0 m d) hl)
              ]
      ]

  day_slots-IsDay :
      (date : Text) (r : DaySlots × List SkippedLocalTime)
      → day_slots luxon snapshot earliest date ≡ ok r
      → IsDay snapshot r.0
  unfolding day_slots
  day_slots-IsDay date r h = elim (Bool-cases (includes date snapshot.closed_dates)) [
    | inl shut ↦
        subst (IsDay snapshot) (ap (λ x. x.0) (ok_injective (rw (shut, day_slots) at h)))
          (record { rising = tt; lasting = tt; closed_empty = λ _. refl })
    | inr open_day ↦
        elim (Chain-of (starts_on luxon snapshot earliest date snapshot.employees []) _
          (rw (open_day, day_slots) at h)) [
            | chain found hf h1 ↦ subst (IsDay snapshot) (ap (λ x. x.0) (ok_injective h1)) (record {
              rising =
                  slots_of-IsRising (snapshot.service.duration_minutes * minute_ms) found.0
                    (starts_on-DistinctStarts date snapshot.employees [] found tt hf);
              lasting = slots_of-Lasts (snapshot.service.duration_minutes * minute_ms) found.0;
              closed_empty = λ shut. ground (arith, shut, open_day);
            })
          ]
  ]

  days_slots-IsDay :
      (dates : List Text) (r : AvailabilityResult)
      → days_slots luxon snapshot earliest dates ≡ ok r
      → All (IsDay snapshot) r.days
  unfolding days_slots
  days_slots-IsDay [] r h = subst (λ x. All (IsDay snapshot) x.days) (ok_injective h) tt
  days_slots-IsDay (date ∷ more) r h =
      elim (Chain-of (day_slots luxon snapshot earliest date) _ h) [
        | chain found hf h1 ↦ elim (Chain-of (days_slots luxon snapshot earliest more) _ h1) [
          | chain later hl h2 ↦
              subst (λ x. All (IsDay snapshot) x.days) (ok_injective h2)
                (day_slots-IsDay date found hf, days_slots-IsDay more later hl)
        ]
      ]

-- On each day that is listed the slots come in rising order with no start twice, each lasts exactly
-- as long as the service, and a closed date has none.
pub generate_availability-IsDay :
    (luxon : Luxon) (snapshot : AvailabilitySnapshot) (from to : Text) (r : AvailabilityResult)
    → generate_availability luxon snapshot from to ≡ ok r
    → All (IsDay snapshot) r.days
unfolding generate_availability
generate_availability-IsDay luxon snapshot from to r h =
    elim (Chain-of (instant_to_local_date luxon snapshot.now snapshot.zone) _ h) [
      | chain today a h1 ↦
          elim (Chain-of
            (add_local_days luxon today snapshot.settings.booking_horizon_days snapshot.zone) _
            h1) [
              | chain horizon b h2 ↦
                  elim (Chain-of
                    (each_local_date luxon (if text_ltb from today then today else from)
                      (if text_ltb horizon to then horizon else to) snapshot.zone)
                    _ h2) [ chain dates c h3 ↦ days_slots-IsDay luxon snapshot _ dates r h3 ]
            ]
    ]
