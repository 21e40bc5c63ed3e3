-- ===== src/Occupancy/Rows.antt =====
-- Which rows each operation at the desk changes.
use shape_and_flow.Base.{
  ℕ, ◌≡◌, refl, sym, ap, subst, ◌∙◌, inl, inr, Bool, true, false, not, Option, some, List,
  Bool-cases, Option-cases, ok, booking_not_cancellable, Chain-of, chain, ok_injective,
}
use shape_and_flow.Base.Int.{pos, ltb_ℤ}
use shape_and_flow.Money.{Money, from_cents}
use shape_and_flow.Booking.Status.{
  BookingStatus, confirmed, canceled_by_customer, canceled_by_business, same_status, is_blocking,
  assert_transition, blocking_booking_statuses,
}
use shape_and_flow.Refund.Service.{
  RefundAmount, RefundReservationResult, additional, cumulative_target,
}
use shape_and_flow.Calendar.Rows.{AppointmentRow}
use shape_and_flow.Calendar.Writes.{find_appointment, update_appointments, set_status}
use shape_and_flow.Desk.Rows.{CancellationRequest, Desk}
use shape_and_flow.Desk.Cancelling.{
  load_booking, lock_confirmed, change_status, reserve_refund, cancel_immediately, open_request,
  carry_out, at_once, late, CancelByCustomerResult, CancelByBusinessInput, refund_typed,
  close_open_requests, cancel_by_business,
}
use shape_and_flow.Desk.Deciding.{
  DecideRequestInput, find_request, approve, write_decision, decide_request,
}
use shape_and_flow.Desk.Safe.{
  refunds, reserve_refund-Refunds, lock_confirmed-found, load_booking-id, guard_passed,
}
use shape_and_flow.Desk.Steps.{then_passed, decides, decide_request-Decides}
use shape_and_flow.Desk.Rights.{approves, approve-Approves}

-- The confirmed booking of the id stops to block.
pub data Closes (id : ℕ) (before after : List AppointmentRow) : Type 0 where
  closes :
      (to : BookingStatus) (b : AppointmentRow)
      → find_appointment id before ≡ some b
      → same_status b.status confirmed ≡ true
      → is_blocking to ≡ false
      → after ≡ update_appointments id (set_status to) before
      → Closes id before after

abbrev pub ClosesOf : ℕ → Desk → Desk → Type 0
ClosesOf id s t = Closes id s.calendar.appointments t.calendar.appointments

abbrev pub SameRows : Desk → Desk → Type 0
SameRows s t = t.calendar.appointments ≡ s.calendar.appointments

lock_confirmed-id :
    (s : Desk) (id : ℕ) (b : AppointmentRow) → lock_confirmed s id ≡ ok b → b.id ≡ id
unfolding lock_confirmed
lock_confirmed-id s id b h = elim (Chain-of (load_booking s id) _ h) [
  | chain row hr h1 ↦
      let (_, h2) = guard_passed (same_status row.status confirmed) booking_not_cancellable h1 in
      load_booking-id s id b (hr ∙ ap ok (ok_injective h2))
]

-- A refund leaves the rows alone.
reserve_refund-rows :
    (s : Desk) (id : ℕ) (amount : RefundAmount) (lenient may : Bool)
    (r : RefundReservationResult × Desk)
    → reserve_refund s id amount lenient may ≡ ok r
    → r.1.calendar ≡ s.calendar
reserve_refund-rows s id amount lenient may r h =
    elim (reserve_refund-Refunds s id amount lenient may r h) [
      | refunds q hq _ e ↦ ap (λ (x : RefundReservationResult × Desk). x.1.calendar) e
    ]

refund_typed-rows :
    (s : Desk) (input : CancelByBusinessInput) (r : Option ℕ × Desk)
    → refund_typed s input ≡ ok r
    → r.1.calendar ≡ s.calendar
unfolding refund_typed
refund_typed-rows s input r h = elim (Option-cases input.refund_amount_cents) [
  | inl absent ↦
      sym
        (ap (λ (x : Option ℕ × Desk). x.1.calendar) (ok_injective (rw (absent, refund_typed) at h)))
  | inr (cents, typed) ↦
      elim (Chain-of
        (reserve_refund s input.booking_id (additional cents) (not (ltb_ℤ (pos 0) cents))
          input.may_issue_refunds)
        _ (rw (typed, refund_typed) at h)) [
          | chain reserved hr h1 ↦
              sym (ap (λ (x : Option ℕ × Desk). x.1.calendar) (ok_injective h1))
              ∙ reserve_refund-rows s input.booking_id (additional cents)
                  (not (ltb_ℤ (pos 0) cents)) input.may_issue_refunds reserved hr
        ]
]

-- A booking that was locked and whose status was changed.
closed :
    (s t : Desk) (id : ℕ) (to : BookingStatus) (current : AppointmentRow)
    → lock_confirmed s id ≡ ok current
    → is_blocking to ≡ false
    → t.calendar.appointments ≡ (change_status s current to).calendar.appointments
    → ClosesOf id s t
unfolding change_status
closed s t id to current hc over e =
    let (found, is_confirmed) = lock_confirmed-found s id current hc in
    subst (λ i. ClosesOf i s t) (lock_confirmed-id s id current hc)
      (closes to current found is_confirmed over e)

pub carry_out-SameRows :
    (s : Desk) (booking : AppointmentRow) (suggested : Money) (r : CancelByCustomerResult × Desk)
    → carry_out s (late booking suggested) ≡ ok r
    → SameRows s r.1
unfolding carry_out open_request
carry_out-SameRows s booking suggested r h = elim (Chain-of (lock_confirmed s booking.id) _ h) [
  | chain current hc h1 ↦
      let (alone, h2) = guard_passed _ _ h1 in
      sym (ap (λ (x : CancelByCustomerResult × Desk). x.1.calendar.appointments) (ok_injective h2))
]

pub carry_out-ClosesOf :
    (s : Desk) (booking : AppointmentRow) (paid : Money) (r : CancelByCustomerResult × Desk)
    → carry_out s (at_once booking paid) ≡ ok r
    → ClosesOf booking.id s r.1
unfolding carry_out cancel_immediately is_blocking blocking_booking_statuses
carry_out-ClosesOf s booking paid r h = elim (Chain-of (lock_confirmed s booking.id) _ h) [
  | chain current hc h1 ↦
      let t = change_status s current canceled_by_customer in
      elim (Chain-of (reserve_refund t booking.id (cumulative_target paid.amount_cents) true true) _
        (then_passed (assert_transition (some current.status) canceled_by_customer) h1)) [
          | chain reserved hr h2 ↦
              elim (Chain-of (from_cents reserved.0.additional_amount_cents booking.currency) _
                h2) [
                  | chain expected he h3 ↦
                      closed s r.1 booking.id canceled_by_customer current hc refl (
                        sym (
                          ap (λ (x : CancelByCustomerResult × Desk). x.1.calendar.appointments)
                            (ok_injective h3))
                        ∙ ap (λ c. c.appointments)
                            (reserve_refund-rows t booking.id (cumulative_target paid.amount_cents)
                              true true reserved hr))
                ]
        ]
]

pub cancel_by_business-ClosesOf :
    (s : Desk) (input : CancelByBusinessInput) (r : Option ℕ × Desk)
    → cancel_by_business s input ≡ ok r
    → ClosesOf input.booking_id s r.1
unfolding cancel_by_business close_open_requests is_blocking blocking_booking_statuses
cancel_by_business-ClosesOf s input r h = elim (Chain-of (lock_confirmed s input.booking_id) _ h) [
  | chain current hc h1 ↦
      let t = change_status s current canceled_by_business in
      elim (Chain-of (refund_typed t input) _
        (then_passed (assert_transition (some current.status) canceled_by_business) h1)) [
          | chain paid_back hp h2 ↦
              closed s r.1 input.booking_id canceled_by_business current hc refl (
                sym (ap (λ (x : Option ℕ × Desk). x.1.calendar.appointments) (ok_injective h2))
                ∙ ap (λ c. c.appointments) (refund_typed-rows t input paid_back hp))
        ]
]

-- What a decision does to the rows: nothing where it declines, else it closes the booking of the
-- request.
pub data DecidedRows (s : Desk) (input : DecideRequestInput) (t : Desk) : Type 0 where
  declined_rows : input.approves ≡ false → SameRows s t → DecidedRows s input t
  approved_rows :
      (request : CancellationRequest)
      → input.approves ≡ true
      → find_request s input.request_id ≡ ok request
      → ClosesOf request.booking_id s t
      → DecidedRows s input t

pub decide_request-DecidedRows :
    (s : Desk) (input : DecideRequestInput) (t : Desk)
    → decide_request s input ≡ ok t
    → DecidedRows s input t
unfolding write_decision is_blocking blocking_booking_statuses
decide_request-DecidedRows s input t h = elim (decide_request-Decides s input t h) [
  | decides request booking paid retained hf hb _ _ _ k ↦ elim (Bool-cases input.approves) [
    | inr declined ↦ declined_rows declined (
        sym (
          ap (λ (x : Desk). x.calendar.appointments)
            (ok_injective (rw (declined, write_decision) at k))))
    | inl agreed ↦
        elim (Chain-of (approve s booking paid retained input.may_issue_refunds) _
          (rw (agreed, write_decision) at k)) [
            | chain r hr h1 ↦
                elim (approve-Approves s booking paid retained input.may_issue_refunds r hr) [
                  | approves current target reserved hc ht hq e ↦ approved_rows request agreed hf (
                      subst (λ i. ClosesOf i s t) (load_booking-id s request.booking_id booking hb)
                        (closed s t booking.id canceled_by_customer current hc refl (
                          sym (ap (λ (x : Desk). x.calendar.appointments) (ok_injective h1))
                          ∙ ap (λ (x : RefundReservationResult × Desk). x.1.calendar.appointments) e
                          ∙ ap (λ c. c.appointments)
                              (reserve_refund-rows (change_status s current canceled_by_customer)
                                booking.id (cumulative_target target.amount_cents) true
                                input.may_issue_refunds reserved hq))))
                ]
          ]
  ]
]
