-- ===== src/Availability/Horizon.antt =====
-- booking-app/apps/api/src/domain/availability/office-view.ts: what customers may book the office may
-- book too, horizon included.
use shape_and_flow.Base.{
  ℕ, ◌*◌, ◌≤◌, ◌≡◌, refl, sym, ap, subst, ◌∙◌, inl, inr, Bool, true, false, ◌||◌, List, [], ◌∷◌,
  arith, In, any, find, ◌==◌, if◌then◌else◌, Bool-cases, Option-cases, ok, Chain-of, chain,
  ok_injective,
}
use shape_and_flow.Base.Text.{Text, text_eqb, text_ltb, text_ltb_trans, text_ltb_connex}
use shape_and_flow.LocalTime.{Luxon, instant_to_local_date, add_local_days, each_local_date}
use shape_and_flow.Availability.Types.{
  EmployeeSnapshot, AvailabilitySnapshot, SkippedLocalTime, DaySlots, AvailabilityResult,
}
use shape_and_flow.Availability.Candidates.{
  includes, StartMap, add_starts, slots_of, minute_ms, first_day_has,
}
use shape_and_flow.Availability.Engine.{
  employee_slots_for, starts_on, day_slots, days_slots, generate_availability, is_slot_bookable,
}
use shape_and_flow.Availability.Accept.{TakesTime}
use shape_and_flow.Availability.Bookable.{alone}
use shape_and_flow.Availability.Starts.{has_start-add_starts, has_start-slots_of}
use shape_and_flow.Availability.Office.{
  as_office_snapshot, office_horizon_days, earliest_start_of, as_office_snapshot-offers,
}

any-of : (t : ℕ) (ts : List ℕ) → any (λ u. u == t) ts ≡ true → In t ts
any-of t [] h = absurd (cc)
any-of t (u ∷ ts) h = elim (Bool-cases (u == t)) [
  | inl e ↦ inl (ground (arith, e))
  | inr n ↦ inr (any-of t ts (rw n at h))
]

of-any : (t : ℕ) (ts : List ℕ) → In t ts → any (λ u. u == t) ts ≡ true
of-any t [] h = absurd h
of-any t (u ∷ ts) (inl e) = ground (arith, e)
of-any t (u ∷ ts) (inr i) = ground (arith, of-any t ts i)

-- The starts that a day of one employee lists are the employee's own.
data DayFound (luxon : Luxon) (s : AvailabilitySnapshot) (e : EmployeeSnapshot) (date : Text)
    (t : ℕ) (r : DaySlots × List SkippedLocalTime) : Type 0 where
  day_found :
      (found : List ℕ × List SkippedLocalTime)
      → employee_slots_for luxon s e date (earliest_start_of s) ≡ ok found
      → any (λ x. x.starts_at == t) r.0.slots ≡ any (λ u. u == t) found.0
      → DayFound luxon s e date t r

or_nothing : (p : Bool) → (p || false) ≡ p
or_nothing p = ground arith

day_slots-DayFound :
    (luxon : Luxon) (s : AvailabilitySnapshot) (e : EmployeeSnapshot) (date : Text) (t : ℕ)
    (r : DaySlots × List SkippedLocalTime)
    → s.employees ≡ e ∷ []
    → includes date s.closed_dates ≡ false
    → day_slots luxon s (earliest_start_of s) date ≡ ok r
    → DayFound luxon s e date t r
unfolding day_slots starts_on
day_slots-DayFound luxon s e date t r one apart h =
    let length_ms = s.service.duration_minutes * minute_ms in
    elim (Chain-of (starts_on luxon s (earliest_start_of s) date s.employees []) _
      (rw (apart, day_slots) at h)) [
        | chain m hm h1 ↦
            elim (Chain-of (employee_slots_for luxon s e date (earliest_start_of s)) _
              (rw (one, starts_on) at hm)) [
                | chain found hf h2 ↦
                    let map_eq : add_starts e.employee_id found.0 [] ≡ m.0 =
                      ap (λ (x : StartMap × List SkippedLocalTime). x.0) (ok_injective h2) in
                    let slots_eq : slots_of length_ms m.0 ≡ r.0.slots =
                      ap (λ (x : DaySlots × List SkippedLocalTime). x.0.slots) (ok_injective h1) in
                    day_found found hf (
                      ap (any (λ x. x.starts_at == t)) (sym slots_eq)
                      ∙ has_start-slots_of t length_ms m.0
                      ∙ ap (any (λ x. x.0 == t)) (sym map_eq)
                      ∙ has_start-add_starts e.employee_id t found.0 []
                      ∙ or_nothing (any (λ u. u == t) found.0))
              ]
      ]

module _ (luxon : Luxon) (s : AvailabilitySnapshot) (e : EmployeeSnapshot) (t : ℕ)
    (one : s.employees ≡ e ∷ []) (takes : TakesTime s.service) where
  day_slots-office :
      (date : Text) (customers office : DaySlots × List SkippedLocalTime)
      → day_slots luxon s (earliest_start_of s) date ≡ ok customers
      → day_slots luxon (as_office_snapshot s) (earliest_start_of (as_office_snapshot s)) date
        ≡ ok office
      → any (λ x. x.starts_at == t) customers.0.slots ≡ true
      → any (λ x. x.starts_at == t) office.0.slots ≡ true
  unfolding day_slots as_office_snapshot
  day_slots-office date customers office hc ho k =
      elim (Bool-cases (includes date s.closed_dates)) [
        | inl shut ↦
            let empty : [] ≡ customers.0.slots =
              ap (λ (x : DaySlots × List SkippedLocalTime). x.0.slots)
                (ok_injective (rw (shut, day_slots) at hc)) in
            let listed : any (λ x. x.starts_at == t) customers.0.slots ≡ true = k in
            absurd (cc (rw (sym empty) at listed))
        | inr apart ↦ elim (day_slots-DayFound luxon s e date t customers one apart hc) [
          | day_found early he ke ↦
              elim (day_slots-DayFound luxon (as_office_snapshot s) e date t office one apart ho) [
                | day_found late hl kl ↦
                    kl
                    ∙ of-any t late.0 (
                        as_office_snapshot-offers luxon s e date t early late takes he hl
                          (any-of t early.0 (sym ke ∙ k)))
              ]
        ]
      ]

  days_slots-office :
      (dates : List Text) (customers office : AvailabilityResult)
      → days_slots luxon s (earliest_start_of s) dates ≡ ok customers
      → days_slots luxon (as_office_snapshot s) (earliest_start_of (as_office_snapshot s)) dates
        ≡ ok office
      → first_day_has t customers.days ≡ true
      → first_day_has t office.days ≡ true
  unfolding days_slots
  days_slots-office [] customers office hc ho k = absurd (
      cc (
        subst (λ (x : AvailabilityResult). first_day_has t x.days ≡ true) (sym (ok_injective hc))
          k))
  days_slots-office (date ∷ more) customers office hc ho k =
      elim (Chain-of (day_slots luxon s (earliest_start_of s) date) _ hc) [
        | chain c hd h1 ↦ elim (Chain-of (days_slots luxon s (earliest_start_of s) more) _ h1) [
          | chain cs _ h2 ↦
              elim (Chain-of
                (day_slots luxon (as_office_snapshot s) (earliest_start_of (as_office_snapshot s))
                  date)
                _ ho) [
                  | chain o hd' h3 ↦
                      elim (Chain-of
                        (days_slots luxon (as_office_snapshot s)
                          (earliest_start_of (as_office_snapshot s)) more)
                        _ h3) [
                          | chain os _ h4 ↦
                              subst (λ (x : AvailabilityResult). first_day_has t x.days ≡ true)
                                (ok_injective h4)
                                (day_slots-office date c o hd hd' (
                                  subst (λ (x : AvailabilityResult). first_day_has t x.days ≡ true)
                                    (sym (ok_injective h2)) k))
                        ]
                ]
        ]
      ]

-- Of three dates, the horizon's is not before the date, and the later horizon's not before it.
reaches :
    (near far date : Text)
    → text_ltb near date ≡ false
    → text_ltb far near ≡ false
    → text_ltb far date ≡ false
reaches near far date h k = ground (
  arith,
  text_ltb_trans far date near,
  text_ltb_trans near far date,
  text_ltb_connex near date,
  text_ltb_connex far near,
)

-- `SETTINGS_BOUNDS` of packages/contracts/src/office/settings.ts.
abbrev pub max_horizon_days : ℕ
max_horizon_days = 365

-- What luxon documents of two sums: more days lead to no earlier date.
abbrev pub LaterDate : Luxon → Text → Text → ℕ → ℕ → Type 0
LaterDate luxon zone today n m =
    (near far : Text)
    → n ≤ m
    → add_local_days luxon today n zone ≡ ok near
    → add_local_days luxon today m zone ≡ ok far
    → text_ltb far near ≡ false

module _ (luxon : Luxon) (s : AvailabilitySnapshot) (today date : Text)
    (on : instant_to_local_date luxon s.now s.zone ≡ ok today)
    (later : LaterDate luxon s.zone today s.settings.booking_horizon_days office_horizon_days)
    (bounded : s.settings.booking_horizon_days ≤ max_horizon_days)
    (reached : (near : Text)
      → add_local_days luxon today s.settings.booking_horizon_days s.zone ≡ ok near
      → text_ltb near date ≡ false) where
  generate_availability-office :
      (e : EmployeeSnapshot) (t : ℕ) (customers office : AvailabilityResult)
      → s.employees ≡ e ∷ []
      → TakesTime s.service
      → generate_availability luxon s date date ≡ ok customers
      → generate_availability luxon (as_office_snapshot s) date date ≡ ok office
      → first_day_has t customers.days ≡ true
      → first_day_has t office.days ≡ true
  unfolding generate_availability as_office_snapshot
  generate_availability-office e t customers office one takes hc ho k =
      let start = if text_ltb date today then today else date in
      elim (Chain-of (add_local_days luxon today s.settings.booking_horizon_days s.zone) _
        (rw (on, generate_availability) at hc)) [
          | chain near hn h1 ↦
              elim (Chain-of (add_local_days luxon today office_horizon_days s.zone) _
                (rw (on, generate_availability) at ho)) [
                  | chain far hf h2 ↦
                      let near_enough = reached near hn in
                      let far_enough =
                        reaches near far date near_enough (later near far (omega arith) hn hf) in
                      elim (Chain-of (each_local_date luxon start date s.zone) _
                        (rw (near_enough) at h1)) [
                          | chain dates hd h3 ↦
                              elim (Chain-of (each_local_date luxon start date s.zone) _
                                (rw (far_enough) at h2)) [
                                  | chain others hd' h4 ↦
                                      days_slots-office luxon s e t one takes dates customers office
                                        h3
                                        (subst
                                          (λ ds.
                                            days_slots luxon (as_office_snapshot s)
                                              (earliest_start_of (as_office_snapshot s)) ds
                                            ≡ ok office)
                                          (ok_injective (sym hd' ∙ hd)) h4)
                                        k
                                ]
                        ]
                ]
        ]

-- What a customer may book, the office may book too: a slot that the reservation accepts with the
-- snapshot for customers it accepts with the snapshot for the office, whenever that is answered at
-- all. The service takes some time, the organization's horizon is within the bounds of its settings and
-- reaches the slot's date, and luxon adds days as it documents.
pub as_office_snapshot-books :
    (luxon : Luxon) (snapshot : AvailabilitySnapshot) (id today date : Text) (t : ℕ) (answer : Bool)
    → instant_to_local_date luxon snapshot.now snapshot.zone ≡ ok today
    → instant_to_local_date luxon t snapshot.zone ≡ ok date
    → LaterDate luxon snapshot.zone today snapshot.settings.booking_horizon_days office_horizon_days
    → snapshot.settings.booking_horizon_days ≤ max_horizon_days
    → ((near : Text)
        → add_local_days luxon today snapshot.settings.booking_horizon_days snapshot.zone ≡ ok near
        → text_ltb near date ≡ false)
    → TakesTime snapshot.service
    → is_slot_bookable luxon snapshot id t ≡ ok true
    → is_slot_bookable luxon (as_office_snapshot snapshot) id t ≡ ok answer
    → answer ≡ true
unfolding is_slot_bookable as_office_snapshot
as_office_snapshot-books luxon snapshot id today date t answer on at_date later bounded reached
      takes hc ho =
    elim (Option-cases (find (λ e. text_eqb e.employee_id id) snapshot.employees)) [
      | inl nobody ↦ absurd (cc (rw (nobody, is_slot_bookable) at hc))
      | inr (e, known) ↦
          elim (Chain-of (generate_availability luxon (alone snapshot e) date date) _
            (rw (known, is_slot_bookable, at_date) at hc)) [
              | chain customers h1 k ↦
                  elim (Chain-of
                    (generate_availability luxon (as_office_snapshot (alone snapshot e)) date date)
                    _ (rw (known, is_slot_bookable, at_date) at ho)) [
                      | chain office h2 l ↦
                          sym (ok_injective l)
                          ∙ generate_availability-office luxon (alone snapshot e) today date on
                              later bounded reached e t customers office refl takes h1 h2
                              (ok_injective k)
                    ]
            ]
    ]
