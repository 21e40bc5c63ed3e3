-- ===== src/Availability/Offered.antt =====
-- What a true answer of `isSlotBookable` tells: the slot is on offer in one of the employee's
-- segments of some date.
use shape_and_flow.Base.{
  ℕ, ◌+◌, ◌*◌, ◌≡◌, refl, sym, ap, inl, inr, true, false, List, [], ◌∷◌, arith, ok, Chain-of, chain,
  ok_injective, any, ◌==◌, if◌then◌else◌, Bool-cases, subst, In,
}
use shape_and_flow.Base.Text.{Text, text_eqb, text_ltb}
use shape_and_flow.LocalTime.{Luxon, instant_to_local_date, add_local_days, each_local_date}
use shape_and_flow.Availability.Types.{
  EmployeeSnapshot, AvailabilitySnapshot, SkippedLocalTime, DaySlots, AvailabilityResult, Segment,
  Slot,
}
use shape_and_flow.Availability.Candidates.{
  includes, StartMap, add_starts, slots_of, minute_ms, hour_ms, first_day_has,
}
use shape_and_flow.Availability.Engine.{
  employee_slots_for, starts_on, day_slots, days_slots, generate_availability, is_slot_bookable,
  segments_for,
}
use shape_and_flow.Availability.Accept.{TakesTime}
use shape_and_flow.Availability.Offer.{SegmentOffer}
use shape_and_flow.Availability.Employee.{employee_slots_for_iff}
use shape_and_flow.Availability.Bookable.{alone}
use shape_and_flow.Availability.Starts.{has_start-add_starts, has_start-slots_of}

-- `earliestStart`.
abbrev earliest_of : AvailabilitySnapshot → ℕ
earliest_of snapshot = snapshot.now + snapshot.settings.minimum_notice_hours * hour_ms

pub record Offered (luxon : Luxon) (snapshot : AvailabilitySnapshot) (e : EmployeeSnapshot) (t : ℕ)
    : Type 0 where
  pub date : Text
  pub open_date : includes date snapshot.closed_dates ≡ false
  pub not_off : includes date e.time_off_dates ≡ false
  pub segments : List Segment
  pub segments_eq : segments_for luxon e date snapshot.zone ≡ ok segments
  pub segment : Segment
  pub segment_in : In segment segments
  pub offer :
      SegmentOffer luxon e date snapshot.zone snapshot.service
        (earliest_of snapshot)
        snapshot.settings.scheduling_interval_minutes
        segment
        t

any-In : (t : ℕ) (ts : List ℕ) → any (λ u. u == t) ts ≡ true → In t ts
any-In t [] h = absurd (cc)
any-In t (u ∷ ts) h = elim (Bool-cases (u == t)) [
  | inl e ↦ inl (ground (arith, e))
  | inr n ↦ inr (any-In t ts (rw n at h))
]

abbrev length_of : AvailabilitySnapshot → ℕ
length_of snapshot = snapshot.service.duration_minutes * minute_ms

slot_found :
    (id : Text) (d t : ℕ) (ts : List ℕ) (m : StartMap) (slots : List Slot)
    → add_starts id ts [] ≡ m
    → slots_of d m ≡ slots
    → any (λ s. s.starts_at == t) slots ≡ true
    → any (λ u. u == t) ts ≡ true
slot_found id d t ts m slots hm hs k =
    ground (arith, has_start-slots_of t d m, has_start-add_starts id t ts [], hm, hs, k)

module _ (luxon : Luxon) (snapshot : AvailabilitySnapshot) (e : EmployeeSnapshot) (t : ℕ)
    (one : snapshot.employees ≡ e ∷ []) (takes : TakesTime snapshot.service) where
  found-Offered :
      (date : Text) (found : List ℕ × List SkippedLocalTime)
      → includes date snapshot.closed_dates ≡ false
      → employee_slots_for luxon snapshot e date (earliest_of snapshot) ≡ ok found
      → In t found.0
      → Offered luxon snapshot e t
  unfolding employee_slots_for
  found-Offered date found open_date h i = elim (Bool-cases (includes date e.time_off_dates)) [
    | inl off ↦
        absurd (subst (λ r. In t r.0) (sym (ok_injective (rw (off, employee_slots_for) at h))) i)
    | inr here ↦
        elim (Chain-of (segments_for luxon e date snapshot.zone) _
          (rw (here, employee_slots_for) at h)) [
            | chain segments hs _ ↦
                let (segment, is, o) =
                  (employee_slots_for_iff luxon snapshot e date (earliest_of snapshot) t segments
                      found takes here hs h).0
                    i in
                record {
                  date = date;
                  open_date = open_date;
                  not_off = here;
                  segments = segments;
                  segments_eq = hs;
                  segment = segment;
                  segment_in = is;
                  offer = o;
                }
          ]
  ]

  day_slots-Offered :
      (date : Text) (r : DaySlots × List SkippedLocalTime)
      → day_slots luxon snapshot (earliest_of snapshot) date ≡ ok r
      → any (λ s. s.starts_at == t) r.0.slots ≡ true
      → Offered luxon snapshot e t
  unfolding day_slots starts_on
  day_slots-Offered date r h k = elim (Bool-cases (includes date snapshot.closed_dates)) [
    | inl shut ↦
        let empty : [] ≡ r.0.slots =
          ap (λ (x : DaySlots × List SkippedLocalTime). x.0.slots)
            (ok_injective (rw (shut, day_slots) at h)) in
        let listed : any (λ s. s.starts_at == t) r.0.slots ≡ true = k in
        absurd (cc (rw (sym empty) at listed))
    | inr apart ↦
        elim (Chain-of (starts_on luxon snapshot (earliest_of snapshot) date snapshot.employees [])
          _ (rw (apart, day_slots) at h)) [
            | chain m hm h1 ↦
                elim (Chain-of (employee_slots_for luxon snapshot e date (earliest_of snapshot)) _
                  (rw (one, starts_on) at hm)) [
                    | chain found hf h2 ↦
                        let map_eq : add_starts e.employee_id found.0 [] ≡ m.0 =
                          ap (λ (x : StartMap × List SkippedLocalTime). x.0) (ok_injective h2) in
                        let slots_eq : slots_of (length_of snapshot) m.0 ≡ r.0.slots =
                          ap (λ (x : DaySlots × List SkippedLocalTime). x.0.slots)
                            (ok_injective h1) in
                        found-Offered date found apart hf (
                          any-In t found.0 (
                            slot_found e.employee_id (length_of snapshot) t found.0 m.0 r.0.slots
                              map_eq slots_eq k))
                  ]
          ]
  ]

  days_slots-Offered :
      (dates : List Text) (r : AvailabilityResult)
      → days_slots luxon snapshot (earliest_of snapshot) dates ≡ ok r
      → first_day_has t r.days ≡ true
      → Offered luxon snapshot e t
  unfolding days_slots
  days_slots-Offered [] r h k = absurd (
      cc (
        subst (λ (x : AvailabilityResult). first_day_has t x.days ≡ true) (sym (ok_injective h)) k))
  days_slots-Offered (date ∷ more) r h k =
      elim (Chain-of (day_slots luxon snapshot (earliest_of snapshot) date) _ h) [
        | chain day hd h1 ↦
            elim (Chain-of (days_slots luxon snapshot (earliest_of snapshot) more) _ h1) [
              | chain later hl h2 ↦ day_slots-Offered date day hd (
                  subst (λ (x : AvailabilityResult). first_day_has t x.days ≡ true)
                    (sym (ok_injective h2)) k)
            ]
      ]

  generate_availability-Offered :
      (from to : Text) (r : AvailabilityResult)
      → generate_availability luxon snapshot from to ≡ ok r
      → first_day_has t r.days ≡ true
      → Offered luxon snapshot e t
  unfolding generate_availability
  generate_availability-Offered from to r h k =
      elim (Chain-of (instant_to_local_date luxon snapshot.now snapshot.zone) _ h) [
        | chain today ht h1 ↦
            elim (Chain-of
              (add_local_days luxon today snapshot.settings.booking_horizon_days snapshot.zone) _
              h1) [
                | chain horizon hh h2 ↦
                    elim (Chain-of
                      (each_local_date luxon (if text_ltb from today then today else from)
                        (if text_ltb horizon to then horizon else to) snapshot.zone)
                      _ h2) [ chain dates hd h3 ↦ days_slots-Offered dates r h3 k ]
              ]
      ]

-- What a true answer tells of a snapshot of one employee.
pub is_slot_bookable-Offered :
    (luxon : Luxon) (snapshot : AvailabilitySnapshot) (e : EmployeeSnapshot) (id : Text) (t : ℕ)
    → snapshot.employees ≡ e ∷ []
    → TakesTime snapshot.service
    → is_slot_bookable luxon snapshot id t ≡ ok true
    → Offered luxon snapshot e t
unfolding is_slot_bookable
is_slot_bookable-Offered luxon snapshot e id t one takes h =
    elim (Bool-cases (text_eqb e.employee_id id)) [
      | inr other ↦ absurd (cc (rw (one, other, is_slot_bookable) at h))
      | inl own ↦
          elim (Chain-of (instant_to_local_date luxon t snapshot.zone) _
            (rw (one, own, is_slot_bookable) at h)) [
              | chain date hd h1 ↦
                  elim (Chain-of (generate_availability luxon (alone snapshot e) date date) _ h1) [
                    | chain result hr h2 ↦
                        subst (λ s. Offered luxon s e t)
                          (ap (λ es. record snapshot { employees = es }) (sym one))
                          (generate_availability-Offered luxon (alone snapshot e) e t refl takes
                            date date result hr (ok_injective h2))
                  ]
            ]
    ]
