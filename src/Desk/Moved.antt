-- ===== src/Desk/Moved.antt =====
-- What an approved reschedule does: the replacement, the booking it replaces, and the money.
use shape_and_flow.Base.{
  ℕ, ◌+◌, ◌≡◌, sym, ap, subst, inl, inr, true, none, some, Option-cases, ok, Chain-of, chain,
  ok_injective, ◌∙◌, slot_unavailable, booking_not_reschedulable,
}
use shape_and_flow.Base.Text.{Text}
use shape_and_flow.Interval.{Interval}
use shape_and_flow.LocalTime.{Luxon}
use shape_and_flow.Availability.Types.{AvailabilitySnapshot}
use shape_and_flow.Availability.Candidates.{block_of}
use shape_and_flow.Availability.Engine.{is_slot_bookable}
use shape_and_flow.Booking.Status.{confirmed, canceled_by_business, same_status, assert_transition}
use shape_and_flow.Calendar.Rows.{OrganizationSettings, AppointmentRow, CalendarStore}
use shape_and_flow.Calendar.Snapshot.{load_for_slot}
use shape_and_flow.Calendar.Writes.{create_appointment}
use shape_and_flow.Desk.Rows.{RescheduleRequest, Desk}
use shape_and_flow.Desk.Cancelling.{load_booking}
use shape_and_flow.Desk.Moving.{
  as_sold_snapshot, employee_or, replacement, finish_move, swap, approve_move,
}
use shape_and_flow.Desk.Safe.{guard_passed}
use shape_and_flow.Desk.Steps.{then_passed}

-- The swap, taken apart.
pub record Swapped (s : Desk) (request : RescheduleRequest) (booking : AppointmentRow)
    (employee_id : Text) (block : Interval) (r : AppointmentRow × Desk) : Type 0 where
  pub calendar : CalendarStore
  pub new_is :
      r.0 ≡ replacement booking s.calendar.next_id employee_id request.requested_starts_at block
  pub created :
      create_appointment (record s.calendar { next_id = s.calendar.next_id + 1 }) r.0 ≡ ok calendar
  pub desk_is : r.1 ≡ finish_move (record s { calendar = calendar }) request booking r.0

swap-Swapped :
    (s : Desk) (request : RescheduleRequest) (booking : AppointmentRow) (employee_id : Text)
    (block : Interval) (r : AppointmentRow × Desk)
    → swap s request booking employee_id block ≡ ok r
    → Swapped s request booking employee_id block r
unfolding swap
swap-Swapped s request booking employee_id block r h =
    let new =
      replacement booking s.calendar.next_id employee_id request.requested_starts_at block in
    elim (Chain-of (create_appointment (record s.calendar { next_id = s.calendar.next_id + 1 }) new)
      _ (then_passed (assert_transition none confirmed) h)) [
        | chain calendar hc h1 ↦
            let e =
              ok_injective
                (then_passed (assert_transition (some booking.status) canceled_by_business) h1) in
            let same : r.0 ≡ new = sym (ap (λ (x : AppointmentRow × Desk). x.0) e) in
            record {
              calendar = calendar;
              new_is = same;
              created =
                  subst
                    (λ n.
                      create_appointment (record s.calendar { next_id = s.calendar.next_id + 1 }) n
                      ≡ ok calendar)
                    (sym same) hc;
              desk_is =
                  sym (ap (λ (x : AppointmentRow × Desk). x.1) e)
                  ∙ ap (λ n. finish_move (record s { calendar = calendar }) request booking n)
                      (sym same);
            }
      ]

-- An approval, taken apart.
pub data MovesTo (luxon : Luxon) (organization : OrganizationSettings) (now : ℕ) (s : Desk)
    (request : RescheduleRequest) (r : AppointmentRow × Desk) : Type 0 where
  moves_to :
      (booking : AppointmentRow) (snapshot : AvailabilitySnapshot) (block : Interval)
      → load_booking s request.booking_id ≡ ok booking
      → same_status booking.status confirmed ≡ true
      → load_for_slot luxon organization now s.calendar booking.service.id
          (employee_or request.requested_employee_id booking.employee_id)
          request.requested_starts_at
        ≡ ok snapshot
      → is_slot_bookable luxon
          (as_sold_snapshot snapshot booking.service)
          (employee_or request.requested_employee_id booking.employee_id)
          request.requested_starts_at
        ≡ ok true
      → block_of booking.service request.requested_starts_at ≡ some block
      → Swapped s request booking
          (employee_or request.requested_employee_id booking.employee_id)
          block
          r
      → MovesTo luxon organization now s request r

pub approve_move-MovesTo :
    (luxon : Luxon) (organization : OrganizationSettings) (now : ℕ) (s : Desk)
    (request : RescheduleRequest) (r : AppointmentRow × Desk)
    → approve_move luxon organization now s request ≡ ok r
    → MovesTo luxon organization now s request r
unfolding approve_move
approve_move-MovesTo luxon organization now s request r h =
    elim (Chain-of (load_booking s request.booking_id) _ h) [
      | chain booking hb h1 ↦
          let id = employee_or request.requested_employee_id booking.employee_id in
          let t = request.requested_starts_at in
          let (stands, h2) =
            guard_passed (same_status booking.status confirmed) booking_not_reschedulable h1 in
          elim (Chain-of (load_for_slot luxon organization now s.calendar booking.service.id id t) _
            h2) [
              | chain snapshot hs h3 ↦
                  elim (Chain-of
                    (is_slot_bookable luxon (as_sold_snapshot snapshot booking.service) id t) _
                    h3) [
                      | chain free hf h4 ↦
                          let (is_free, h5) = guard_passed free slot_unavailable h4 in
                          elim (Option-cases (block_of booking.service t)) [
                            | inl early ↦ absurd (cc (rw (early) at h5))
                            | inr (block, at_block) ↦
                                moves_to booking snapshot block hb stands hs (hf ∙ ap ok is_free)
                                  at_block
                                  (swap-Swapped s request booking id block r (rw (at_block) at h5))
                          ]
                    ]
            ]
    ]
