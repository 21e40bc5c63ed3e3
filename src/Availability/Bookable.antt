-- ===== src/Availability/Bookable.antt =====
-- What a customer is offered and what the reservation accepts are the same: `isSlotBookable` agrees
-- with `generateAvailability`.
use shape_and_flow.Base.{
  ℕ, ◌+◌, ◌*◌, ◌≡◌, refl, sym, ap, ◌∙◌, inl, inr, Bool, false, ◌||◌, Option, none, some, List, [],
  ◌∷◌, ◌++◌, arith, Outcome, ok, Chain-of, chain, ok_injective, any, find, ◌==◌, if◌then◌else◌,
  Bool-cases, subst,
}
use shape_and_flow.Base.Text.{Text, text_eqb, text_eqb_iff, text_ltb}
use shape_and_flow.LocalTime.{Luxon, instant_to_local_date, add_local_days, each_local_date}
use shape_and_flow.Availability.Types.{
  EmployeeSnapshot, AvailabilitySnapshot, SkippedLocalTime, DaySlots, AvailabilityResult,
}
use shape_and_flow.Availability.Candidates.{
  includes, StartMap, add_starts, slots_of, minute_ms, hour_ms, first_day_has,
}
use shape_and_flow.Availability.Engine.{
  employee_slots_for, starts_on, day_slots, days_slots, generate_availability, is_slot_bookable,
}
use shape_and_flow.Availability.Starts.{
  can_take, lists, can_take-add_starts, lists-slots_of, has_start-add_starts, has_start-slots_of,
}

-- The first employee with the id, as `Array.prototype.find` gives it.
abbrev pub by_id : Text → List EmployeeSnapshot → Option EmployeeSnapshot
by_id id = find (λ e. text_eqb e.employee_id id)

-- No two employees have one id.
abbrev pub DistinctIds : List EmployeeSnapshot → Type 0
DistinctIds [] = Unit
DistinctIds (e ∷ es) = (by_id e.employee_id es ≡ none) × DistinctIds es

-- The first day lists the employee at the instant.
abbrev pub first_day_lists : Text → ℕ → List DaySlots → Bool
first_day_lists id t [] = false
first_day_lists id t (day ∷ more) = lists id t day.slots

module _ (luxon : Luxon) (snapshot : AvailabilitySnapshot) (earliest : ℕ) (id : Text) (t : ℕ) where
  abbrev run : Text → List EmployeeSnapshot → StartMap → Outcome (StartMap × List SkippedLocalTime)
  run = starts_on luxon snapshot earliest

  abbrev of_employee : EmployeeSnapshot → Text → Outcome (List ℕ × List SkippedLocalTime)
  of_employee e date = employee_slots_for luxon snapshot e date earliest

  starts_on-absent :
      (date : Text) (es : List EmployeeSnapshot) (m : StartMap)
      {r : StartMap × List SkippedLocalTime}
      → run date es m ≡ ok r
      → by_id id es ≡ none
      → can_take id t r.0 ≡ can_take id t m
  unfolding starts_on
  starts_on-absent date [] m h n = sym (ap (λ r. can_take id t r.0) (ok_injective h))
  starts_on-absent date (e ∷ es) m h n = elim (Chain-of (of_employee e date) _ h) [
    | chain found hf h1 ↦ elim (Chain-of (run date es (add_starts e.employee_id found.0 m)) _ h1) [
      | chain later hl h2 ↦
          sym (ap (λ r. can_take id t r.0) (ok_injective h2))
          ∙ starts_on-absent date es (add_starts e.employee_id found.0 m) hl (ground arith)
          ∙ ground (arith, can_take-add_starts id e.employee_id t found.0 m)
    ]
  ]

  -- What the employee's own slots say of the map.
  data Takes (date : Text) (e : EmployeeSnapshot) (before after : Bool) : Type 0 where
    takes :
        (found : List ℕ × List SkippedLocalTime)
        → of_employee e date ≡ ok found
        → after ≡ (any (λ u. u == t) found.0 || before)
        → Takes date e before after

  starts_on-Takes :
      (date : Text) (es : List EmployeeSnapshot) (m : StartMap) (e : EmployeeSnapshot)
      {r : StartMap × List SkippedLocalTime}
      → run date es m ≡ ok r
      → by_id id es ≡ some e
      → DistinctIds es
      → Takes date e (can_take id t m) (can_take id t r.0)
  unfolding starts_on
  starts_on-Takes date [] m e h b d = cc
  starts_on-Takes date (x ∷ es) m e h b d = elim (Chain-of (of_employee x date) _ h) [
    | chain found hf h1 ↦ elim (Chain-of (run date es (add_starts x.employee_id found.0 m)) _ h1) [
      | chain later hl h2 ↦ elim (Bool-cases (text_eqb x.employee_id id)) [
        | inl hit ↦
            let same : x.employee_id ≡ id = (text_eqb_iff _ _).0 hit in
            let chosen : x ≡ e = ground arith in
            takes found (subst (λ y. of_employee y date ≡ ok found) chosen hf) (
              sym (ap (λ r. can_take id t r.0) (ok_injective h2))
              ∙ starts_on-absent date es (add_starts x.employee_id found.0 m) hl
                  (subst (λ i. by_id i es ≡ none) same d.0)
              ∙ ground (arith, can_take-add_starts id x.employee_id t found.0 m))
        | inr miss ↦
            elim (starts_on-Takes date es (add_starts x.employee_id found.0 m) e hl (ground arith)
              d.1) [
                | takes own ho k ↦ takes own ho (
                    sym (ap (λ r. can_take id t r.0) (ok_injective h2))
                    ∙ k
                    ∙ ground (arith, can_take-add_starts id x.employee_id t found.0 m))
              ]
      ]
    ]
  ]

abbrev pub alone : AvailabilitySnapshot → EmployeeSnapshot → AvailabilitySnapshot
alone snapshot e = record snapshot { employees = e ∷ [] }

-- A day of the one employee beside the day of all.
data SameDay (id : Text) (t : ℕ) (all : DaySlots) (own : Outcome (DaySlots × List SkippedLocalTime))
    : Type 0 where
  same_day :
      (day : DaySlots × List SkippedLocalTime)
      → own ≡ ok day
      → any (λ s. s.starts_at == t) day.0.slots ≡ lists id t all.slots
      → SameDay id t all own

data SameFirst (id : Text) (t : ℕ) (all : List DaySlots) (own : Outcome AvailabilityResult)
    : Type 0 where
  same_first :
      (result : AvailabilityResult)
      → own ≡ ok result
      → first_day_has t result.days ≡ first_day_lists id t all
      → SameFirst id t all own

module _ (luxon : Luxon) (snapshot : AvailabilitySnapshot) (earliest : ℕ) (id : Text) (t : ℕ)
    (e : EmployeeSnapshot) (b : by_id id snapshot.employees ≡ some e)
    (d : DistinctIds snapshot.employees) where
  abbrev length_ms : ℕ
  length_ms = snapshot.service.duration_minutes * minute_ms

  alone_slots :
      (date : Text)
      → employee_slots_for luxon (alone snapshot e) e date earliest
        ≡ employee_slots_for luxon snapshot e date earliest
  unfolding employee_slots_for
  alone_slots date = refl

  own_starts :
      (date : Text) (found : List ℕ × List SkippedLocalTime)
      → employee_slots_for luxon snapshot e date earliest ≡ ok found
      → starts_on luxon (alone snapshot e) earliest date (e ∷ []) []
        ≡ ok (add_starts e.employee_id found.0 [], found.1 ++ [])
  unfolding starts_on
  own_starts date found h = rw (alone_slots date, h) refl

  day_slots-SameDay :
      (date : Text) (r : DaySlots × List SkippedLocalTime)
      → day_slots luxon snapshot earliest date ≡ ok r
      → SameDay id t r.0 (day_slots luxon (alone snapshot e) earliest date)
  unfolding day_slots
  day_slots-SameDay date r h = elim (Bool-cases (includes date snapshot.closed_dates)) [
    | inl shut ↦
        same_day (record { date = date; slots = [] }, []) (rw (shut, day_slots) refl)
          (ap (λ (x : DaySlots × List SkippedLocalTime). lists id t x.0.slots)
            (ok_injective (rw (shut, day_slots) at h)))
    | inr apart ↦
        elim (Chain-of (starts_on luxon snapshot earliest date snapshot.employees []) _
          (rw (apart, day_slots) at h)) [
            | chain found hf h1 ↦
                elim (starts_on-Takes luxon snapshot earliest id t date snapshot.employees [] e hf b
                  d) [
                    | takes own ho k ↦
                        let m : StartMap = add_starts e.employee_id own.0 [] in
                        same_day (record { date = date; slots = slots_of length_ms m }, own.1 ++ [])
                          (rw (apart, day_slots, own_starts date own ho) refl)
                          (has_start-slots_of t length_ms m
                            ∙ has_start-add_starts e.employee_id t own.0 []
                            ∙ sym k
                            ∙ sym (lists-slots_of id t length_ms found.0)
                            ∙ ap (λ x. lists id t x.0.slots) (ok_injective h1))
                  ]
          ]
  ]

  days_slots-SameFirst :
      (dates : List Text) (r : AvailabilityResult)
      → days_slots luxon snapshot earliest dates ≡ ok r
      → SameFirst id t r.days (days_slots luxon (alone snapshot e) earliest dates)
  unfolding days_slots
  days_slots-SameFirst [] r h =
      same_first (record { days = []; skipped = [] }) refl
        (ap (λ (x : AvailabilityResult). first_day_lists id t x.days) (ok_injective h))
  days_slots-SameFirst (date ∷ more) r h =
      elim (Chain-of (day_slots luxon snapshot earliest date) _ h) [
        | chain found hf h1 ↦ elim (Chain-of (days_slots luxon snapshot earliest more) _ h1) [
          | chain later hl h2 ↦ elim (day_slots-SameDay date found hf) [
            | same_day day hd k ↦ elim (days_slots-SameFirst more later hl) [
              | same_first rest hr _ ↦
                  same_first (record { days = day.0 ∷ rest.days; skipped = day.1 ++ rest.skipped })
                    (rw (hd, hr, days_slots) refl)
                    (k ∙ ap (λ x. first_day_lists id t x.days) (ok_injective h2))
            ]
          ]
        ]
      ]

generate_availability-SameFirst :
    (luxon : Luxon) (snapshot : AvailabilitySnapshot) (id from to : Text) (t : ℕ)
    (e : EmployeeSnapshot) (r : AvailabilityResult)
    → by_id id snapshot.employees ≡ some e
    → DistinctIds snapshot.employees
    → generate_availability luxon snapshot from to ≡ ok r
    → SameFirst id t r.days (generate_availability luxon (alone snapshot e) from to)
unfolding generate_availability
generate_availability-SameFirst luxon snapshot id from to t e r b d h =
    elim (Chain-of (instant_to_local_date luxon snapshot.now snapshot.zone) _ h) [
      | chain today ht h1 ↦
          elim (Chain-of
            (add_local_days luxon today snapshot.settings.booking_horizon_days snapshot.zone) _
            h1) [
              | chain horizon hh h2 ↦
                  elim (Chain-of
                    (each_local_date luxon (if text_ltb from today then today else from)
                      (if text_ltb horizon to then horizon else to) snapshot.zone)
                    _ h2) [
                      | chain dates hd h3 ↦
                          elim (days_slots-SameFirst luxon snapshot
                            (snapshot.now + snapshot.settings.minimum_notice_hours * hour_ms) id t e
                            b d dates r h3) [
                              | same_first own ho k ↦ same_first own (rw (ht, hh, hd) ho) k
                            ]
                    ]
            ]
    ]

-- Whenever the slots of the instant's own date can be generated, the reservation's test returns,
-- and says that an employee can be booked at an instant exactly when those slots list the employee
-- at that instant; employee ids are distinct and the employee is one of the snapshot.
pub is_slot_bookable_agrees :
    (luxon : Luxon) (snapshot : AvailabilitySnapshot) (id date : Text) (t : ℕ)
    (e : EmployeeSnapshot) (result : AvailabilityResult)
    → by_id id snapshot.employees ≡ some e
    → DistinctIds snapshot.employees
    → instant_to_local_date luxon t snapshot.zone ≡ ok date
    → generate_availability luxon snapshot date date ≡ ok result
    → is_slot_bookable luxon snapshot id t ≡ ok (first_day_lists id t result.days)
unfolding is_slot_bookable
is_slot_bookable_agrees luxon snapshot id date t e result b d hd h =
    elim (generate_availability-SameFirst luxon snapshot id date date t e result b d h) [
      | same_first own ho k ↦ rw (b, is_slot_bookable, hd, ho, k) refl
    ]
