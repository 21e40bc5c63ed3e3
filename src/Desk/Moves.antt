-- ===== src/Desk/Moves.antt =====
-- A booking that was moved: its replacement, its old time, and its money.
use shape_and_flow.Base.{
  ℕ, ◌+◌, ◌≡◌, refl, sym, ap, subst, inl, inr, Bool, true, false, ◌&&◌, some, List, [], ◌∷◌, any,
  map, arith, ◌==◌, Bool-cases, Option-cases, ok, ◌∙◌,
}
use shape_and_flow.Base.Text.{Text, text_eqb}
use shape_and_flow.Interval.{Interval, overlaps}
use shape_and_flow.Booking.Status.{
  BookingStatus, confirmed, canceled_by_business, same_status, is_blocking,
  blocking_booking_statuses,
}
use shape_and_flow.Refund.Store.{find_booking}
use shape_and_flow.Refund.Service.{root_booking_id}
use shape_and_flow.Calendar.Rows.{AppointmentRow, CalendarStore}
use shape_and_flow.Calendar.Writes.{
  clashes, is_excluded, find_appointment, update_appointments, set_status,
}
use shape_and_flow.Calendar.Kept.{Kept, create_appointment-Created, create_appointment-Kept}
use shape_and_flow.Desk.Rows.{RescheduleRequest, Desk, books, booking_row}
use shape_and_flow.Desk.Paid.{paid_total}
use shape_and_flow.Desk.Cancelling.{change_status}
use shape_and_flow.Desk.Moving.{employee_or, root_of, replacement, finish_move}
use shape_and_flow.Desk.Safe.{update_appointments-Kept}
use shape_and_flow.Desk.Moved.{Swapped}

-- A row that nothing clashes with clashes with none of them.
found_apart :
    (id : ℕ) (e : Text) (block : Interval) (rows : List AppointmentRow) (b : AppointmentRow)
    → find_appointment id rows ≡ some b
    → any (clashes e block) rows ≡ false
    → clashes e block b ≡ false
found_apart id e block [] b f h = absurd (cc)
found_apart id e block (a ∷ rows) b f h = elim (Bool-cases (a.id == id)) [
  | inl hit ↦ ground arith
  | inr miss ↦ found_apart id e block rows b (rw (miss) at f) (ground arith)
]

confirmed_blocks : (s : BookingStatus) → same_status s confirmed ≡ true → is_blocking s ≡ true
unfolding is_blocking blocking_booking_statuses
confirmed_blocks s h = ground arith

drop_middle : (p q r : Bool) → q ≡ true → (p && q && r) ≡ false → (p && r) ≡ false
drop_middle p q r e h = ground arith

rest_of : (p q : Bool) → p ≡ true → (p && q) ≡ false → q ≡ false
rest_of p q e h = ground arith

-- The replacement beside the booking whose row it was checked against.
apart_of :
    (new b : AppointmentRow) (rows : List AppointmentRow) (id : ℕ)
    → new.status ≡ confirmed
    → same_status b.status confirmed ≡ true
    → find_appointment id rows ≡ some b
    → is_excluded new rows ≡ false
    → (text_eqb b.employee_id new.employee_id && overlaps new.block b.block) ≡ false
unfolding is_excluded clashes
apart_of new b rows id s c f h =
    let clear : any (clashes new.employee_id new.block) rows ≡ false =
      rest_of (is_blocking new.status) (any (clashes new.employee_id new.block) rows)
        (confirmed_blocks new.status (rw (s) refl)) h in
    let own = found_apart id new.employee_id new.block rows b f clear in
    drop_middle (text_eqb b.employee_id new.employee_id) (is_blocking b.status)
      (overlaps new.block b.block) (confirmed_blocks b.status c) own

-- Where a row's money is, read from the bookings.
pub find_booking-row :
    (id : ℕ) (rows : List AppointmentRow) (b : AppointmentRow)
    → find_appointment id rows ≡ some b
    → find_booking id (map booking_row rows) ≡ some (booking_row b)
find_booking-row id [] b h = absurd (cc)
find_booking-row id (a ∷ rows) b h = elim (Bool-cases (a.id == id)) [
  | inl hit ↦ let same : a ≡ b = ground arith in rw (hit) (ap (λ x. some (booking_row x)) same)
  | inr miss ↦ rw (miss) (find_booking-row id rows b (rw (miss) at h))
]

pub root_booking_id-of :
    (s : Desk) (id : ℕ) (b : AppointmentRow)
    → find_booking id (map booking_row s.calendar.appointments) ≡ some (booking_row b)
    → root_booking_id (books s) id ≡ ok (root_of b)
unfolding root_booking_id
root_booking_id-of s id b h = elim (Option-cases b.financial_root) [
  | inl own ↦ rw (h, root_booking_id, own) refl
  | inr (root, moved) ↦ rw (h, root_booking_id, moved) refl
]

-- Two desks with the same payments count the same for the same root.
pub paid_total-same :
    (s t : Desk) (a b : ℕ) (currency : Text) (root : ℕ)
    → root_booking_id (books s) a ≡ ok root
    → root_booking_id (books t) b ≡ ok root
    → s.ledger.payments ≡ t.ledger.payments
    → s.manual_payments ≡ t.manual_payments
    → paid_total s a currency ≡ paid_total t b currency
unfolding paid_total
paid_total-same s t a b currency root ha hb hp hm = rw (ha, hb, hp, hm, paid_total) refl

-- What an approved move leaves behind.
pub record Moves (s : Desk) (request : RescheduleRequest) (booking new : AppointmentRow) (t : Desk)
    : Type 0 where
  pub same_service : new.service ≡ booking.service
  pub same_price : new.price_cents ≡ booking.price_cents
  pub same_customer : new.customer_id ≡ booking.customer_id
  pub starts : new.span.start ≡ request.requested_starts_at
  pub on : new.employee_id ≡ employee_or request.requested_employee_id booking.employee_id
  pub stored :
      t.calendar.appointments
      ≡ update_appointments booking.id
          (set_status canceled_by_business)
          (new ∷ s.calendar.appointments)
  pub in_place_of : new.rescheduled_from ≡ some booking.id
  pub apart :
      (text_eqb booking.employee_id new.employee_id && overlaps new.block booking.block) ≡ false
  pub ledger_is : t.ledger ≡ s.ledger
  pub requests_are : t.requests ≡ s.requests
  pub rooted : new.financial_root ≡ some (root_of booking)
  pub counted : t.manual_payments ≡ s.manual_payments

-- Whichever of the two rows has the id, a confirmed booking is canceled.
canceled-Kept :
    (new b : AppointmentRow) (rows : List AppointmentRow) (id : ℕ)
    → new.status ≡ confirmed
    → same_status b.status confirmed ≡ true
    → find_appointment id rows ≡ some b
    → Kept (new ∷ rows)
    → Kept (update_appointments id (set_status canceled_by_business) (new ∷ rows))
unfolding is_blocking blocking_booking_statuses
canceled-Kept new b rows id s c f k = elim (Bool-cases (new.id == id)) [
  | inl hit ↦
      update_appointments-Kept id canceled_by_business new (new ∷ rows) (rw (hit) refl)
        (rw (s) refl) refl k
  | inr miss ↦
      update_appointments-Kept id canceled_by_business b (new ∷ rows) (rw (miss) f) c refl k
]

module _ (s : Desk) (request : RescheduleRequest) (booking : AppointmentRow) (employee_id : Text)
    (block : Interval) (r : AppointmentRow × Desk)
    (found : find_appointment booking.id s.calendar.appointments ≡ some booking)
    (stands : same_status booking.status confirmed ≡ true)
    (on : employee_id ≡ employee_or request.requested_employee_id booking.employee_id) where
  pub Swapped-Moves :
      Swapped s request booking employee_id block r → Moves s request booking r.0 r.1
  unfolding replacement finish_move change_status
  Swapped-Moves w =
      let u = record s.calendar { next_id = s.calendar.next_id + 1 } in
      let c = create_appointment-Created u r.0 w.calendar w.created in
      let is_new : r.0.status ≡ confirmed = ap (λ (a : AppointmentRow). a.status) w.new_is in
      let rows : w.calendar.appointments ≡ r.0 ∷ s.calendar.appointments =
        ap (λ (x : CalendarStore). x.appointments) c.store_is in
      let stored : r.1.calendar.appointments
          ≡ update_appointments booking.id (set_status canceled_by_business)
              (r.0 ∷ s.calendar.appointments) =
        ap (λ (d : Desk). d.calendar.appointments) w.desk_is
        ∙ ap (λ xs. update_appointments booking.id (set_status canceled_by_business) xs) rows in
      record {
        same_service = ap (λ (a : AppointmentRow). a.service) w.new_is;
        same_price = ap (λ (a : AppointmentRow). a.price_cents) w.new_is;
        same_customer = ap (λ (a : AppointmentRow). a.customer_id) w.new_is;
        starts = ap (λ (a : AppointmentRow). a.span.start) w.new_is;
        on = ap (λ (a : AppointmentRow). a.employee_id) w.new_is ∙ on;
        stored = stored;
        in_place_of = ap (λ (a : AppointmentRow). a.rescheduled_from) w.new_is;
        apart = apart_of r.0 booking s.calendar.appointments booking.id is_new stands found c.apart;
        ledger_is = ap (λ (d : Desk). d.ledger) w.desk_is;
        requests_are = ap (λ (d : Desk). d.requests) w.desk_is;
        rooted = ap (λ (a : AppointmentRow). a.financial_root) w.new_is;
        counted = ap (λ (d : Desk). d.manual_payments) w.desk_is;
      }

  pub Swapped-Kept :
      Swapped s request booking employee_id block r
      → Moves s request booking r.0 r.1
      → Kept s.calendar.appointments
      → Kept r.1.calendar.appointments
  unfolding replacement
  Swapped-Kept w m k =
      let u = record s.calendar { next_id = s.calendar.next_id + 1 } in
      let c = create_appointment-Created u r.0 w.calendar w.created in
      subst Kept (sym m.stored) (
        canceled-Kept r.0 booking s.calendar.appointments booking.id
          (ap (λ (a : AppointmentRow). a.status) w.new_is) stands found
          (subst Kept (ap (λ (x : CalendarStore). x.appointments) c.store_is)
            (create_appointment-Kept u r.0 w.calendar w.created k)))
