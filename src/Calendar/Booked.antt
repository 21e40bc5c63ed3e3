-- ===== src/Calendar/Booked.antt =====
-- What a reservation that returned has done, and what it keeps true.
use shape_and_flow.Base.{
  ℕ, ◌+◌, ◌*◌, ◌≤◌, ◌≡◌, refl, sym, subst, inl, inr, true, false, arith, Option, none, some,
  Bool-cases, Option-cases, ok, Chain-of, chain, ok_injective, ltb, ◌||◌, if◌then◌else◌,
}
use shape_and_flow.Base.Text.{Text, text_eqb_iff}
use shape_and_flow.LocalTime.{Luxon}
use shape_and_flow.Availability.Types.{AvailabilitySnapshot}
use shape_and_flow.Availability.Candidates.{hour_ms}
use shape_and_flow.Availability.Engine.{is_slot_bookable}
use shape_and_flow.Money.{Money}
use shape_and_flow.Booking.Status.{BookingStatus, pending_payment, confirmed}
use shape_and_flow.Calendar.Rows.{OrganizationSettings, AppointmentRow, CalendarStore}
use shape_and_flow.Calendar.Snapshot.{is_asked, load_service, load_for_slot}
use shape_and_flow.Calendar.Reservation.{
  insert_once, expiry_of, check_window, resolve_employee, reserve,
}
use shape_and_flow.Calendar.Insertion.{
  ReserveActor, customer, office, initial_status, is_office, for_actor, ReserveInput, ReserveResult,
  assert_within_booking_window, day_ms,
}
use shape_and_flow.Calendar.Kept.{Kept}
use shape_and_flow.Calendar.Assigned.{Assigned, load_effective_assignment-Assigned}
use shape_and_flow.Calendar.Written.{write_booking-Written, Written}

-- The notice and the horizon, which bind customers.
abbrev pub WithinWindow : OrganizationSettings → ℕ → ReserveActor → ℕ → Type 0
WithinWindow organization now customer t =
    (now + organization.availability.minimum_notice_hours * hour_ms ≤ t)
    × (t ≤ now + organization.availability.booking_horizon_days * day_ms)
WithinWindow organization now office t = Unit

-- A customer's booking waits for its payment, the office's is confirmed.
abbrev pub StartsIn : ReserveActor → BookingStatus → Type 0
StartsIn customer status = status ≡ pending_payment
StartsIn office status = status ≡ confirmed

-- A customer's booking is due after the organization's minutes, the office's never.
abbrev pub IsDue : OrganizationSettings → ℕ → ReserveActor → Option ℕ → Type 0
IsDue organization now customer due =
    due ≡ some (now + organization.reservation_ttl_minutes * 60000)
IsDue organization now office due = due ≡ none

-- What a reservation that returned has done: the slot, within the window, was free in what was
-- loaded for it, for the employee that was asked for if one was, and the booking is written.
pub record Reserved (luxon : Luxon) (organization : OrganizationSettings) (now : ℕ)
    (s : CalendarStore) (input : ReserveInput) (booking : AppointmentRow) (price : Money)
    (t : CalendarStore) : Type 0 where
  pub within : WithinWindow organization now input.actor input.starts_at
  pub asked : is_asked input.employee_id booking.employee_id ≡ true
  pub snapshot : AvailabilitySnapshot
  pub loaded :
      load_for_slot luxon organization now s input.service_id booking.employee_id input.starts_at
      ≡ ok snapshot
  pub free :
      is_slot_bookable luxon (for_actor snapshot input.actor) booking.employee_id input.starts_at
      ≡ ok true
  pub written :
      Written s input booking.employee_id snapshot.service
        (expiry_of luxon organization now input.actor)
        booking
        price
        t
  pub starts_in : StartsIn input.actor booking.status
  pub is_due : IsDue organization now input.actor booking.expires_at
  pub is_assigned : Assigned s snapshot.service.id booking.employee_id input.actor price
  pub costs : booking.price_cents ≡ price.amount_cents

initial_status-StartsIn :
    (actor : ReserveActor) (status : BookingStatus)
    → status ≡ initial_status actor
    → StartsIn actor status
initial_status-StartsIn customer status h = h
initial_status-StartsIn office status h = h

expiry_of-IsDue :
    (luxon : Luxon) (organization : OrganizationSettings) (now : ℕ) (actor : ReserveActor)
    (due : Option ℕ)
    → due ≡ expiry_of luxon organization now actor
    → IsDue organization now actor due
expiry_of-IsDue luxon organization now customer due h = h
expiry_of-IsDue luxon organization now office due h = h

within_booking_window :
    (organization : OrganizationSettings) (now t : ℕ) (done : Unit {0})
    → assert_within_booking_window organization now t ≡ ok done
    → WithinWindow organization now customer t
unfolding assert_within_booking_window
within_booking_window organization now t done h =
    let earliest = now + organization.availability.minimum_notice_hours * hour_ms in
    let latest = now + organization.availability.booking_horizon_days * day_ms in
    elim (Bool-cases (ltb t earliest || ltb latest t)) [
      | inl out ↦ absurd (cc (rw (out, assert_within_booking_window) at h))
      | inr fits ↦ (ground arith, ground arith)
    ]

check_window-WithinWindow :
    (organization : OrganizationSettings) (now t : ℕ) (actor : ReserveActor) (done : Unit {0})
    → (if is_office actor then ok tt else assert_within_booking_window organization now t) ≡ ok done
    → WithinWindow organization now actor t
check_window-WithinWindow organization now t customer done h =
    within_booking_window organization now t done h
check_window-WithinWindow organization now t office done h = tt

module _ (luxon : Luxon) (organization : OrganizationSettings) (now : ℕ) (s : CalendarStore)
    (input : ReserveInput) where
  resolve_employee-asked :
      (id : Text)
      → resolve_employee luxon organization now s input ≡ ok id
      → is_asked input.employee_id id ≡ true
  unfolding resolve_employee
  resolve_employee-asked id h = elim (Option-cases input.employee_id) [
    | inl unasked ↦ rw (unasked) refl
    | inr (asked, named) ↦
        rw (named)
          ((text_eqb_iff id asked).1 (sym (ok_injective (rw (named, resolve_employee) at h))))
  ]

  -- What is known once the row is written.
  data Placed (id : Text) (r : ReserveResult × CalendarStore) : Type 0 where
    placed :
        (snapshot : AvailabilitySnapshot)
        → load_for_slot luxon organization now s input.service_id id input.starts_at ≡ ok snapshot
        → is_slot_bookable luxon (for_actor snapshot input.actor) id input.starts_at ≡ ok true
        → Written s input id snapshot.service
            (expiry_of luxon organization now input.actor)
            r.0.booking
            r.0.price
            r.1
        → Placed id r

  insert_once-Placed :
      (id : Text) (r : ReserveResult × CalendarStore)
      → insert_once luxon organization now s input id (expiry_of luxon organization now input.actor)
        ≡ ok r
      → Placed id r × (Kept s.appointments → Kept r.1.appointments)
  unfolding insert_once
  insert_once-Placed id r h =
      elim (Chain-of (load_for_slot luxon organization now s input.service_id id input.starts_at) _
        h) [
          | chain snapshot hs h1 ↦
              elim (Chain-of
                (is_slot_bookable luxon (for_actor snapshot input.actor) id input.starts_at) _ h1) [
                  | chain true hf h2 ↦
                      let w =
                        write_booking-Written s input id snapshot.service
                          (expiry_of luxon organization now input.actor) r h2 in
                      (placed snapshot hs hf w.0, w.1)
                  | chain false hf h2 ↦ absurd (cc)
                ]
        ]

-- What the reservation does, kept apart by its steps.
data Steps (luxon : Luxon) (organization : OrganizationSettings) (now : ℕ) (s : CalendarStore)
    (input : ReserveInput) (r : ReserveResult × CalendarStore) : Type 0 where
  steps :
      (id : Text)
      → WithinWindow organization now input.actor input.starts_at
      → is_asked input.employee_id id ≡ true
      → insert_once luxon organization now s input id (expiry_of luxon organization now input.actor)
        ≡ ok r
      → Steps luxon organization now s input r

reserve-Steps :
    (luxon : Luxon) (organization : OrganizationSettings) (now : ℕ) (seen s : CalendarStore)
    (input : ReserveInput) (r : ReserveResult × CalendarStore)
    → reserve luxon organization now seen s input ≡ ok r
    → Steps luxon organization now s input r
unfolding reserve
reserve-Steps luxon organization now seen s input r h =
    elim (Chain-of (load_service seen input.service_id) _ h) [
      | chain service hs h1 ↦ elim (Chain-of (check_window luxon organization now input) _ h1) [
        | chain done hd h2 ↦
            elim (Chain-of (resolve_employee luxon organization now seen input) _ h2) [
              | chain id hi h3 ↦
                  steps id
                    (check_window-WithinWindow organization now input.starts_at input.actor done hd)
                    (resolve_employee-asked luxon organization now seen input id hi) h3
            ]
      ]
    ]

-- A reservation that returned, whatever the choice of the employee had read before, booked a slot that
-- was free under the lock, for the employee who was asked for, if one was, inside the notice and the
-- horizon, which bind customers. The booking is the only new one. Neither its employee nor its service
-- is archived, a customer's employee is bookable online, and it costs the override of the assignment,
-- or without one the service's price. A customer's booking waits for its payment until the
-- organization's minutes are over; the office's is confirmed and is never due.
pub reserve-Reserved :
    (luxon : Luxon) (organization : OrganizationSettings) (now : ℕ) (seen s : CalendarStore)
    (input : ReserveInput) (r : ReserveResult × CalendarStore)
    → reserve luxon organization now seen s input ≡ ok r
    → Reserved luxon organization now s input r.0.booking r.0.price r.1
reserve-Reserved luxon organization now seen s input r h =
    elim (reserve-Steps luxon organization now seen s input r h) [
      | steps id within asked hi ↦
          elim (insert_once-Placed luxon organization now s input id r hi).0 [
            | placed snapshot hs hf w ↦
                let same = sym w.taken_by in
                record {
                  within = within;
                  asked = subst (λ x. is_asked input.employee_id x ≡ true) same asked;
                  snapshot = snapshot;
                  loaded =
                      subst
                        (λ x.
                          load_for_slot luxon organization now s input.service_id x input.starts_at
                          ≡ ok snapshot)
                        same hs;
                  free =
                      subst
                        (λ x.
                          is_slot_bookable luxon (for_actor snapshot input.actor) x input.starts_at
                          ≡ ok true)
                        same hf;
                  written =
                      subst
                        (λ x.
                          Written s input x snapshot.service
                            (expiry_of luxon organization now input.actor) r.0.booking r.0.price
                            r.1)
                        same w;
                  starts_in = initial_status-StartsIn input.actor r.0.booking.status w.in_status;
                  is_due =
                      expiry_of-IsDue luxon organization now input.actor r.0.booking.expires_at
                        w.due;
                  is_assigned =
                      subst (λ x. Assigned s snapshot.service.id x input.actor r.0.price) same
                        (load_effective_assignment-Assigned s snapshot.service.id id input.actor
                          r.0.price w.priced);
                  costs = w.charged;
                }
          ]
    ]

-- A reservation keeps it true that no two bookings that block one employee's time overlap, and that
-- every booking has a block and a span that hold some time, and a due time exactly while it waits
-- for its payment.
pub reserve-Kept :
    (luxon : Luxon) (organization : OrganizationSettings) (now : ℕ) (seen s : CalendarStore)
    (input : ReserveInput) (r : ReserveResult × CalendarStore)
    → reserve luxon organization now seen s input ≡ ok r
    → Kept s.appointments
    → Kept r.1.appointments
reserve-Kept luxon organization now seen s input r h k =
    elim (reserve-Steps luxon organization now seen s input r h) [
      | steps id within asked hi ↦ (insert_once-Placed luxon organization now s input id r hi).1 k
    ]
