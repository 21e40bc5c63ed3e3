-- ===== src/Occupancy/Shifted.antt =====
-- An approved move in the abstract view.
use shape_and_flow.Base.{
  ℕ, ◌+◌, ◌≤◌, ◌≡◌, ◌⊎◌, refl, sym, ap, subst, ◌∙◌, inl, inr, true, false, ◌&&◌, not, Option, none,
  some, List, ◌∷◌, ◌==◌, ==_iff, Bool-cases, ok, Chain-of, chain, ok_injective,
}
use shape_and_flow.Base.Text.{Text}
use shape_and_flow.LocalTime.{Luxon}
use shape_and_flow.Booking.Status.{
  confirmed, canceled_by_business, same_status, is_blocking, blocking_booking_statuses,
}
use shape_and_flow.Calendar.Rows.{OrganizationSettings, AppointmentRow, CalendarStore}
use shape_and_flow.Calendar.Writes.{is_excluded, find_appointment, update_appointments, set_status}
use shape_and_flow.Calendar.Kept.{NoOverlap, create_appointment-Created}
use shape_and_flow.Desk.Rows.{RescheduleRequest, Desk}
use shape_and_flow.Desk.Moving.{
  DecideRescheduleInput, employee_or, lock_move, replacement, decide_reschedule,
}
use shape_and_flow.Desk.Safe.{load_booking-found, load_booking-id}
use shape_and_flow.Desk.Moved.{moves_to, approve_move-MovesTo}
use shape_and_flow.Desk.Moves.{Swapped-Moves}
use shape_and_flow.Desk.MoveDecided.{move_done, decide_reschedule-MoveDone}
use shape_and_flow.Occupancy.View.{
  spans, taken, clear-taken, found-taken, update_appointments-frees, cons-takes,
}
use shape_and_flow.Occupancy.Refines.{
  Occupancy, Stays, Shifts, shifts, view, confirmed_holds, both_false, apart_false, excluded_clear,
  block_of-about,
}

-- No booking has the id that the next one gets.
abbrev pub IsFresh : CalendarStore → Type 0
IsFresh s = find_appointment s.next_id s.appointments ≡ none

pub fresh_apart :
    (next id : ℕ) (rows : List AppointmentRow) (b : AppointmentRow)
    → find_appointment next rows ≡ none
    → find_appointment id rows ≡ some b
    → (next == id) ≡ false
fresh_apart next id rows b fresh found = elim (Bool-cases (next == id)) [
  | inr apart ↦ apart
  | inl same ↦ let e = (==_iff next id).0 same in absurd (cc (rw (e, found) at fresh))
]

module _ (s : Desk) (booking new : AppointmentRow) (after : List AppointmentRow)
    (asked : Option Text) (start : ℕ)
    (found : find_appointment booking.id s.calendar.appointments ≡ some booking)
    (stands : same_status booking.status confirmed ≡ true) (is_new : new.status ≡ confirmed)
    (other : (new.id == booking.id) ≡ false)
    (clear : is_excluded new s.calendar.appointments ≡ false)
    (chosen : (asked ≡ some new.employee_id)
      ⊎ ((asked ≡ none) × (booking.employee_id ≡ new.employee_id)))
    (about : (new.block.start ≤ start) × (start ≤ new.block.end)) where
  moved-Shifts :
      NoOverlap s.calendar.appointments
      → after
        ≡ update_appointments booking.id
            (set_status canceled_by_business)
            (new ∷ s.calendar.appointments)
      → Shifts s.calendar.appointments booking.id asked start (view s.calendar) (taken after)
  unfolding is_blocking blocking_booking_statuses
  moved-Shifts n stored =
      let rows = s.calendar.appointments in
      let old_blocks = confirmed_holds booking.status stands in
      let new_blocks : is_blocking new.status ≡ true =
        confirmed_holds new.status (rw (is_new) refl) in
      shifts booking new.employee_id new.block found chosen about
        (λ e t.
          both_false (spans e t booking) (taken rows e t)
            (found-taken e t booking.id rows booking found old_blocks))
        (λ e t.
          apart_false (spans e t new) (taken rows e t)
            (clear-taken e t new rows (excluded_clear new rows new_blocks clear)))
        (λ e t.
          ap (λ xs. taken xs e t) stored
          ∙ update_appointments-frees booking.id canceled_by_business (new ∷ rows) booking e t
              (rw (other) found) old_blocks refl (clear, n)
          ∙ ap (λ q. q && not (spans e t booking)) (cons-takes new rows e t new_blocks))

pub chosen_employee :
    (asked : Option Text) (old id : Text)
    → id ≡ employee_or asked old
    → (asked ≡ some id) ⊎ ((asked ≡ none) × (old ≡ id))
chosen_employee none old id h = inr (refl, sym h)
chosen_employee (some x) old id h = inl (ap some (sym h))

-- What a decision on a move does: where it declines nothing, else the booking of the request moves.
pub data DecidedMove (s : Desk) (input : DecideRescheduleInput) (after : Occupancy) : Type 0 where
  declined_move : input.approves ≡ false → Stays (view s.calendar) after → DecidedMove s input after
  approved_move :
      (request : RescheduleRequest)
      → input.approves ≡ true
      → lock_move s input.request_id ≡ ok request
      → Shifts s.calendar.appointments request.booking_id request.requested_employee_id
          request.requested_starts_at
          (view s.calendar)
          after
      → DecidedMove s input after

pub decide_reschedule-DecidedMove :
    (luxon : Luxon) (organization : OrganizationSettings) (now : ℕ) (s : Desk)
    (input : DecideRescheduleInput) (r : Option ℕ × Desk)
    → decide_reschedule luxon organization now s input ≡ ok r
    → NoOverlap s.calendar.appointments
    → IsFresh s.calendar
    → DecidedMove s input (view r.1.calendar)
unfolding decide_reschedule replacement
decide_reschedule-DecidedMove luxon organization now s input r h n fresh =
    elim (Bool-cases input.approves) [
      | inr declined ↦ elim (Chain-of (lock_move s input.request_id) _ h) [
        | chain request hl h1 ↦
            let e = ok_injective (rw (declined) at h1) in
            declined_move declined
              (λ x t. sym (ap (λ (q : Option ℕ × Desk). view q.1.calendar x t) e))
      ]
      | inl agreed ↦ elim (decide_reschedule-MoveDone luxon organization now s input r h agreed) [
        | move_done request done hl hd e ↦
            elim (approve_move-MovesTo luxon organization now s request done hd) [
              | moves_to booking snapshot block hb stands _ _ hk w ↦
                  let found = load_booking-found s request.booking_id booking hb in
                  let id = employee_or request.requested_employee_id booking.employee_id in
                  let m = Swapped-Moves s request booking id block done found stands refl w in
                  let c =
                    create_appointment-Created
                      (record s.calendar { next_id = s.calendar.next_id + 1 }) done.0 w.calendar
                      w.created in
                  let next : done.0.id ≡ s.calendar.next_id =
                    ap (λ (a : AppointmentRow). a.id) w.new_is in
                  let in_block : done.0.block ≡ block =
                    ap (λ (a : AppointmentRow). a.block) w.new_is in
                  approved_move request agreed hl (
                    subst
                      (λ i.
                        Shifts s.calendar.appointments i request.requested_employee_id
                          request.requested_starts_at (view s.calendar) (view r.1.calendar))
                      (load_booking-id s request.booking_id booking hb)
                      (moved-Shifts s booking done.0 r.1.calendar.appointments
                        request.requested_employee_id request.requested_starts_at found stands
                        (ap (λ (a : AppointmentRow). a.status) w.new_is)
                        (ap (λ i. i == booking.id) next
                          ∙ fresh_apart s.calendar.next_id booking.id s.calendar.appointments
                              booking fresh found)
                        c.apart
                        (chosen_employee request.requested_employee_id booking.employee_id
                          done.0.employee_id (ap (λ (a : AppointmentRow). a.employee_id) w.new_is))
                        (block_of-about booking.service request.requested_starts_at done.0.block
                          (hk ∙ ap some (sym in_block)))
                        n (ap (λ (q : Option ℕ × Desk). q.1.calendar.appointments) e ∙ m.stored)))
            ]
      ]
    ]
