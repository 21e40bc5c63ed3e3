-- ===== src/Occupancy/Refines.antt =====
-- The steps of the abstract view, and that a change of rows and a reservation are such steps.
use shape_and_flow.Base.{
  ℕ, ◌*◌, ◌≤◌, ◌≡◌, ◌⊎◌, ltb, refl, sym, ap, ◌∙◌, subst, inl, inr, Bool, true, false, ◌&&◌, ◌||◌,
  not, Option, none, some, List, [], ◌∷◌, map, any, arith, ◌==◌, Bool-cases, Option-cases, find, ok,
  ok_injective,
}
use shape_and_flow.Base.Text.{Text, text_eqb}
use shape_and_flow.Interval.{Interval, contains_instant}
use shape_and_flow.LocalTime.{Luxon}
use shape_and_flow.Booking.Status.{
  BookingStatus, confirmed, same_status, is_blocking, blocking_booking_statuses,
}
use shape_and_flow.Calendar.Rows.{OrganizationSettings, AppointmentRow, CalendarStore}
use shape_and_flow.Availability.Types.{ServiceSnapshot}
use shape_and_flow.Availability.Candidates.{block_of, minute_ms}
use shape_and_flow.Calendar.Snapshot.{is_asked}
use shape_and_flow.Calendar.Writes.{is_excluded, find_appointment, update_appointments, set_status}
use shape_and_flow.Calendar.Reservation.{reserve}
use shape_and_flow.Calendar.Insertion.{
  ReserveActor, customer, office, initial_status, ReserveInput, ReserveResult, same_key, let_go,
  claim_idempotency_key,
}
use shape_and_flow.Calendar.Kept.{NoOverlap}
use shape_and_flow.Calendar.Booked.{reserve-Reserved}
use shape_and_flow.Occupancy.View.{
  spans, holds, taken, clear-taken, found-taken, update_appointments-frees, cons-takes,
}
use shape_and_flow.Occupancy.Rows.{Closes, closes}

-- When each employee is taken.
abbrev pub Occupancy : Type 0
Occupancy = Text → ℕ → Bool

-- The time of one block on one calendar.
abbrev pub within : Text → Interval → Occupancy
within id block e t = text_eqb id e && contains_instant block t

abbrev pub Stays : Occupancy → Occupancy → Type 0
Stays before after = (e : Text) (t : ℕ) → after e t ≡ before e t

-- One block about the start, on the calendar of the employee who was asked for, if one was; all of it
-- was free, and now it is taken.
pub data Takes (asked : Option Text) (start : ℕ) (before after : Occupancy) : Type 0 where
  takes :
      (id : Text) (block : Interval)
      → is_asked asked id ≡ true
      → (block.start ≤ start) × (start ≤ block.end)
      → ((e : Text) (t : ℕ) → (within id block e t && before e t) ≡ false)
      → ((e : Text) (t : ℕ) → after e t ≡ (within id block e t || before e t))
      → Takes asked start before after

-- The block of the booking; all of it was taken, and now it is free.
pub data Frees (rows : List AppointmentRow) (id : ℕ) (before after : Occupancy) : Type 0 where
  frees :
      (b : AppointmentRow)
      → find_appointment id rows ≡ some b
      → ((e : Text) (t : ℕ) → (within b.employee_id b.block e t && not (before e t)) ≡ false)
      → ((e : Text) (t : ℕ) → after e t ≡ (before e t && not (within b.employee_id b.block e t)))
      → Frees rows id before after

-- The block of the booking becomes free, and a block about the start, all of which was free, on the
-- calendar of the employee who was asked for, or else of the same one, is taken.
pub data Shifts (rows : List AppointmentRow) (id : ℕ) (asked : Option Text) (start : ℕ)
    (before after : Occupancy) : Type 0 where
  shifts :
      (b : AppointmentRow) (new_id : Text) (block : Interval)
      → find_appointment id rows ≡ some b
      → (asked ≡ some new_id) ⊎ ((asked ≡ none) × (b.employee_id ≡ new_id))
      → (block.start ≤ start) × (start ≤ block.end)
      → ((e : Text) (t : ℕ) → (within b.employee_id b.block e t && not (before e t)) ≡ false)
      → ((e : Text) (t : ℕ) → (within new_id block e t && before e t) ≡ false)
      → ((e : Text) (t : ℕ)
          → after e t
            ≡ ((within new_id block e t || before e t) && not (within b.employee_id b.block e t)))
      → Shifts rows id asked start before after

abbrev pub view : CalendarStore → Occupancy
view s = taken s.appointments

pub confirmed_holds : (s : BookingStatus) → same_status s confirmed ≡ true → is_blocking s ≡ true
unfolding is_blocking blocking_booking_statuses
confirmed_holds s h = ground arith

pub both_false : (p q : Bool) → (p ≡ true → q ≡ true) → (p && not q) ≡ false
both_false p true f = ground arith
both_false true false f = absurd (cc (f refl))
both_false false false f = refl

pub apart_false : (p q : Bool) → (p ≡ true → q ≡ false) → (p && q) ≡ false
apart_false true q f = f refl
apart_false false q f = refl

pub Closes-Frees :
    (id : ℕ) (before after : List AppointmentRow)
    → NoOverlap before
    → Closes id before after
    → Frees before id (taken before) (taken after)
Closes-Frees id before after n (closes to b f c o e) =
    let blocks = confirmed_holds b.status c in
    frees b f
      (λ x t. both_false (spans x t b) (taken before x t) (found-taken x t id before b f blocks))
      (λ x t.
        ap (λ rows. taken rows x t) e ∙ update_appointments-frees id to before b x t f blocks o n)

-- A block lies about the start of its service.
pub block_of-about :
    (service : ServiceSnapshot) (t : ℕ) (block : Interval)
    → block_of service t ≡ some block
    → (block.start ≤ t) × (t ≤ block.end)
unfolding block_of
block_of-about service t block h =
    elim (Bool-cases (ltb t (service.prep_buffer_minutes * minute_ms))) [
      | inl early ↦ absurd (cc (rw (early, block_of) at h))
      | inr late ↦ let same = rw (late, block_of) at h in ground arith
    ]

-- Letting go of a key changes no one's time.
holds-let_go :
    (key : ℕ) (a : AppointmentRow) (e : Text) (t : ℕ) → holds e t (let_go key a) ≡ holds e t a
holds-let_go key a e t = elim (Bool-cases (same_key a.idempotency_key_id key)) [
  | inl own ↦ rw (own) refl
  | inr other ↦ rw (other) refl
]

taken-let_go :
    (key : ℕ) (rows : List AppointmentRow) (e : Text) (t : ℕ)
    → taken (map (let_go key) rows) e t ≡ taken rows e t
unfolding taken
taken-let_go key [] e t = refl
taken-let_go key (a ∷ rows) e t = ground (arith, holds-let_go key a e t, taken-let_go key rows e t)

taken-claimed :
    (s : CalendarStore) (key : Option ℕ) (r : Option ℕ × CalendarStore)
    → claim_idempotency_key s key ≡ ok r
    → (e : Text) (t : ℕ) → view r.1 e t ≡ view s e t
unfolding claim_idempotency_key
taken-claimed s none r h e t =
    sym (ap (λ (x : Option ℕ × CalendarStore). view x.1 e t) (ok_injective h))
taken-claimed s (some key) r h e t =
    elim (Option-cases (find (λ k. k.key == key && k.is_in_progress) s.keys)) [
      | inl missing ↦ absurd (cc (rw (missing, claim_idempotency_key) at h))
      | inr (k, found) ↦
          sym (
            ap (λ (x : Option ℕ × CalendarStore). view x.1 e t)
              (ok_injective (rw (found, claim_idempotency_key) at h)))
          ∙ taken-let_go k.id s.appointments e t
    ]

initial_holds : (actor : ReserveActor) → is_blocking (initial_status actor) ≡ true
unfolding is_blocking blocking_booking_statuses
initial_holds customer = refl
initial_holds office = refl

pub excluded_clear :
    (a : AppointmentRow) (rows : List AppointmentRow)
    → is_blocking a.status ≡ true
    → is_excluded a rows ≡ false
    → any (shape_and_flow.Calendar.Writes.clashes a.employee_id a.block) rows ≡ false
unfolding is_excluded
excluded_clear a rows c h = rw (c, is_excluded) at h

-- A reservation that returned takes the time of its block, buffers included, which was free.
pub reserve-Takes :
    (luxon : Luxon) (organization : OrganizationSettings) (now : ℕ) (seen s : CalendarStore)
    (input : ReserveInput) (r : ReserveResult × CalendarStore)
    → reserve luxon organization now seen s input ≡ ok r
    → Takes input.employee_id input.starts_at (view s) (view r.1)
reserve-Takes luxon organization now seen s input r h =
    let done = reserve-Reserved luxon organization now seen s input r h in
    let w = done.written in
    let booking = r.0.booking in
    let blocks : is_blocking booking.status ≡ true =
      subst (λ x. is_blocking x ≡ true) (sym w.in_status) (initial_holds input.actor) in
    let clear = excluded_clear booking w.claimed.1.appointments blocks w.excluded in
    let same = taken-claimed s input.idempotency_key w.claimed w.claimed_eq in
    takes booking.employee_id booking.block done.asked
      (block_of-about done.snapshot.service input.starts_at booking.block w.blocked)
      (λ e t. apart_false (spans e t booking) (view s e t) (λ at_booking.
        sym (same e t) ∙ clear-taken e t booking w.claimed.1.appointments clear at_booking))
      (λ e t.
        ap (λ rows. taken rows e t) w.stored
        ∙ cons-takes booking w.claimed.1.appointments e t blocks
        ∙ ap (λ q. spans e t booking || q) (same e t))
