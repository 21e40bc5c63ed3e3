-- ===== src/Calendar/Clear.antt =====
-- Why the look at the slot, taken under the lock, is enough: what it found free is free in the
-- tables.
use shape_and_flow.Base.{
  ℕ, ◌≡◌, refl, sym, ap, subst, inl, inr, Bool, true, false, ◌&&◌, some, List, [], ◌∷◌, map, filter,
  any, arith, any-append, Bool-cases, Outcome, ok, Chain-of, chain, ok_injective, ltb, ◌∙◌, ◌>>=◌,
}
use shape_and_flow.Base.Text.{Text, text_eqb}
use shape_and_flow.Interval.{Interval, overlaps, contains}
use shape_and_flow.LocalTime.{Luxon, instant_to_local_date}
use shape_and_flow.Availability.Types.{EmployeeSnapshot, AvailabilitySnapshot}
use shape_and_flow.Availability.Candidates.{block_of}
use shape_and_flow.Availability.Engine.{is_slot_bookable}
use shape_and_flow.Availability.Accept.{TakesTime}
use shape_and_flow.Availability.Offered.{Offered, is_slot_bookable-Offered}
use shape_and_flow.Availability.Office.{as_office_snapshot}
use shape_and_flow.Booking.Status.{is_blocking}
use shape_and_flow.Calendar.Rows.{
  OrganizationSettings, ServiceRow, BlockedTimeRow, AppointmentRow, CalendarStore,
}
use shape_and_flow.Calendar.Snapshot.{
  window_of, load_service, load_employee_ids, load_employee, load_time_off, load_busy,
  load_for_slot,
}
use shape_and_flow.Calendar.Padding.{LocalDay, WithinServiceBounds, window_of-contains}
use shape_and_flow.Calendar.Writes.{clashes}
use shape_and_flow.Calendar.Insertion.{ReserveActor, customer, office, for_actor}

-- A blocked time of the employee overlaps the block.
abbrev pub hits : Text → Interval → BlockedTimeRow → Bool
hits id block b = text_eqb b.employee_id id && overlaps block b.span

-- The block is clear of the employee's bookings that block and of the blocked times.
abbrev pub IsClear : CalendarStore → Text → Interval → Type 0
IsClear s id block =
    (any (clashes id block) s.appointments ≡ false) × (any (hits id block) s.blocked_times ≡ false)

module _ (window block : Interval) (inside : contains window block ≡ true) (id : Text) where
  abbrev loads : AppointmentRow → Bool
  loads a =
      text_eqb a.employee_id id
      && is_blocking a.status
      && ltb a.block.start window.end
      && ltb window.start a.block.end

  abbrev loads_blocked : BlockedTimeRow → Bool
  loads_blocked b =
      text_eqb b.employee_id id && ltb b.span.start window.end && ltb window.start b.span.end

  appointments_clear :
      (rows : List AppointmentRow)
      → any (overlaps block) (map (λ a. a.block) (filter loads rows)) ≡ false
      → any (clashes id block) rows ≡ false
  unfolding clashes overlaps contains
  appointments_clear [] h = refl
  appointments_clear (a ∷ rows) h = elim (Bool-cases (loads a)) [
    | inl y ↦ ground (arith, appointments_clear rows)
    | inr n ↦ ground (arith, appointments_clear rows)
  ]

  blocked_clear :
      (rows : List BlockedTimeRow)
      → any (overlaps block) (map (λ b. b.span) (filter loads_blocked rows)) ≡ false
      → any (hits id block) rows ≡ false
  unfolding overlaps contains
  blocked_clear [] h = refl
  blocked_clear (b ∷ rows) h = elim (Bool-cases (loads_blocked b)) [
    | inl y ↦ ground (arith, blocked_clear rows)
    | inr n ↦ ground (arith, blocked_clear rows)
  ]

  load_busy-IsClear :
      (s : CalendarStore)
      → any (overlaps block) (load_busy s window id) ≡ false
      → IsClear s id block
  unfolding load_busy
  load_busy-IsClear s h =
      let both =
        sym (any-append (overlaps block) (map (λ a. a.block) (filter loads s.appointments)) _)
        ∙ h in
      (
        appointments_clear s.appointments (ground arith),
        blocked_clear s.blocked_times (ground arith),
      )

-- `window`, of the date of the slot.
abbrev pub slot_window : Luxon → OrganizationSettings → ℕ → Outcome Interval
slot_window luxon organization starts_at =
    instant_to_local_date luxon starts_at organization.zone >>= λ date.
    window_of luxon date date organization.zone

-- What `loadForSlot` returns.
pub record LoadedSlot (luxon : Luxon) (organization : OrganizationSettings) (s : CalendarStore)
    (service_id id : Text) (t : ℕ) (snapshot : AvailabilitySnapshot) : Type 0 where
  pub window : Interval
  pub window_eq : slot_window luxon organization t ≡ ok window
  pub service : ServiceRow
  pub service_eq : load_service s service_id ≡ ok service
  pub employee : EmployeeSnapshot
  pub busy_eq : employee.busy ≡ load_busy s window id
  pub service_is : snapshot.service ≡ service.snapshot
  pub employees_are : snapshot.employees ≡ employee ∷ []

module _ (luxon : Luxon) (organization : OrganizationSettings) (now : ℕ) (s : CalendarStore)
    (service_id id : Text) (t : ℕ) (snapshot : AvailabilitySnapshot) where
  pub load_for_slot-LoadedSlot :
      load_for_slot luxon organization now s service_id id t ≡ ok snapshot
      → LoadedSlot luxon organization s service_id id t snapshot
  unfolding load_for_slot load_employee
  load_for_slot-LoadedSlot h =
      elim (Chain-of (instant_to_local_date luxon t organization.zone) _ h) [
        | chain date hd h1 ↦ elim (Chain-of (window_of luxon date date organization.zone) _ h1) [
          | chain window hw h2 ↦ elim (Chain-of (load_service s service_id) _ h2) [
            | chain service hs h3 ↦
                elim (Chain-of (load_employee_ids s service_id (some id)) _ h3) [
                  | chain ids hi h4 ↦
                      elim (Chain-of (load_employee luxon s organization.zone window id) _ h4) [
                        | chain employee he h5 ↦
                            elim (Chain-of (load_time_off luxon s organization.zone window id) _
                              he) [
                                | chain off ho h6 ↦ record {
                                  window = window;
                                  window_eq = rw (hd) hw;
                                  service = service;
                                  service_eq = hs;
                                  employee = employee;
                                  busy_eq =
                                      sym (ap (λ (e : EmployeeSnapshot). e.busy) (ok_injective h6));
                                  service_is = sym (
                                      ap (λ (x : AvailabilitySnapshot). x.service)
                                        (ok_injective h5));
                                  employees_are = sym (
                                      ap (λ (x : AvailabilitySnapshot). x.employees)
                                        (ok_injective h5));
                                }
                              ]
                      ]
                ]
          ]
        ]
      ]

-- What the office's view of a snapshot keeps.
for_actor-employees :
    (snapshot : AvailabilitySnapshot) (actor : ReserveActor)
    → (for_actor snapshot actor).employees ≡ snapshot.employees
unfolding as_office_snapshot
for_actor-employees snapshot customer = refl
for_actor-employees snapshot office = refl

for_actor-service :
    (snapshot : AvailabilitySnapshot) (actor : ReserveActor)
    → (for_actor snapshot actor).service ≡ snapshot.service
unfolding as_office_snapshot
for_actor-service snapshot customer = refl
for_actor-service snapshot office = refl

some_injective : {a b : Interval} → some a ≡ some b → a ≡ b
some_injective h = cc

Offered-IsClear :
    (luxon : Luxon) (view : AvailabilitySnapshot) (e : EmployeeSnapshot) (t : ℕ) (s : CalendarStore)
    (id : Text) (window block : Interval)
    → Offered luxon view e t
    → e.busy ≡ load_busy s window id
    → block_of view.service t ≡ some block
    → contains window block ≡ true
    → IsClear s id block
Offered-IsClear luxon view e t s id window block o busy_eq hb inside =
    let same : o.offer.block ≡ block = some_injective (sym o.offer.block_eq ∙ hb) in
    load_busy-IsClear window block inside id s (
      subst (λ b. any (overlaps b) (load_busy s window id) ≡ false) same
        (subst (λ bs. any (overlaps o.offer.block) bs ≡ false) busy_eq o.offer.not_busy))

-- A slot that the snapshot for it offers, to a customer or to the office, is free in the tables: the
-- block of the service at that instant overlaps no blocking booking and no blocked time of the
-- employee, so that the database's constraint has nothing to refuse. The service takes some time and
-- keeps within the bounds of the office's form, and luxon places the slot on its local date as it
-- documents.
pub load_for_slot-IsClear :
    (luxon : Luxon) (organization : OrganizationSettings) (now : ℕ) (s : CalendarStore)
    (service_id id : Text) (t : ℕ) (actor : ReserveActor) (snapshot : AvailabilitySnapshot)
    (block : Interval)
    → LocalDay luxon organization.zone t
    → load_for_slot luxon organization now s service_id id t ≡ ok snapshot
    → is_slot_bookable luxon (for_actor snapshot actor) id t ≡ ok true
    → TakesTime snapshot.service
    → WithinServiceBounds snapshot.service
    → block_of snapshot.service t ≡ some block
    → IsClear s id block
load_for_slot-IsClear luxon organization now s service_id id t actor snapshot block day h free takes
      bounds hb =
    let l = load_for_slot-LoadedSlot luxon organization now s service_id id t snapshot h in
    let same_service = for_actor-service snapshot actor in
    let hw : window_of luxon day.date day.date organization.zone ≡ ok l.window =
      rw (day.date_eq) at l.window_eq in
    let inside =
      window_of-contains luxon organization.zone t day l.window block snapshot.service bounds hw
        hb in
    Offered-IsClear luxon (for_actor snapshot actor) l.employee t s id l.window block
      (is_slot_bookable-Offered luxon (for_actor snapshot actor) l.employee id t
        (for_actor-employees snapshot actor ∙ l.employees_are)
        (subst TakesTime (sym same_service) takes) free)
      l.busy_eq (ap (λ x. block_of x t) same_service ∙ hb) inside
