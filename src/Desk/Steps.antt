-- ===== src/Desk/Steps.antt =====
-- Each operation at the desk leaves it safe.
use shape_and_flow.Base.{
  ℕ, ◌≡◌, refl, subst, inl, inr, Bool, true, false, ◌&&◌, not, Option, some, any, arith, Bool-cases,
  Option-cases, Outcome, ok, err, Chain-of, chain, ok_injective, ◌>>◌, booking_not_cancellable,
  request_already_decided,
}
use shape_and_flow.Base.Int.{pos, ltb_ℤ}
use shape_and_flow.Money.{Money, from_cents, minus}
use shape_and_flow.Refund.Service.{
  RefundAmount, RefundReservationResult, additional, cumulative_target,
}
use shape_and_flow.Booking.Status.{
  BookingStatus, canceled_by_customer, canceled_by_business, is_blocking, assert_transition,
  blocking_booking_statuses,
}
use shape_and_flow.Calendar.Rows.{AppointmentRow}
use shape_and_flow.Desk.Rows.{CancellationRequest, is_open, Desk}
use shape_and_flow.Desk.Paid.{paid_total}
use shape_and_flow.Desk.Cancelling.{
  load_booking, lock_confirmed, change_status, announce, reserve_refund, is_open_for,
  cancel_immediately, open_request, CancelByCustomerResult, CancelPlan, at_once, late, carry_out,
  close_request, close_open_requests, CancelByBusinessInput, refund_typed, cancel_by_business,
}
use shape_and_flow.Desk.Deciding.{
  DecideRequestInput, find_request, validate_retained, approve, reject_with, approve_with,
  write_decision, decide_request,
}
use shape_and_flow.Desk.Safe.{
  IsSafe, guard_passed, lock_confirmed-found, change_status-IsSafe, reserve_refund-IsSafe,
}
use shape_and_flow.Desk.Requests.{
  map-OneOpen, update_request-OneOpen, close_request-OpensNone, reject_with-OpensNone,
  approve_with-OpensNone,
}

pub then_passed :
    {A : Type 0} (o : Outcome (Unit {0})) {next : Outcome A} {r : A}
    → (o >> next) ≡ ok r
    → next ≡ ok r
then_passed (ok done) h = h
then_passed (err e) h = absurd (cc)

announce-IsSafe :
    (s : Desk) (id : ℕ) (refund_id : Option ℕ) → IsSafe s → IsSafe (announce s id refund_id)
announce-IsSafe s id refund_id v = record {
  calendar_kept = v.calendar_kept;
  ledger_sound = v.ledger_sound;
  one_open = v.one_open;
}

-- A booking that was locked, canceled and paid back for.
called_off-IsSafe :
    (s : Desk) (id : ℕ) (to : BookingStatus) (amount : RefundAmount) (lenient may : Bool)
    (current : AppointmentRow) (r : RefundReservationResult × Desk)
    → lock_confirmed s id ≡ ok current
    → is_blocking to ≡ false
    → reserve_refund (change_status s current to) id amount lenient may ≡ ok r
    → IsSafe s
    → IsSafe r.1
called_off-IsSafe s id to amount lenient may current r hc over hr v =
    let (found, is_confirmed) = lock_confirmed-found s id current hc in
    reserve_refund-IsSafe (change_status s current to) id amount lenient may r hr
      (change_status-IsSafe s current to found is_confirmed over v)

pub cancel_immediately-IsSafe :
    (s : Desk) (booking : AppointmentRow) (paid : Money) (r : CancelByCustomerResult × Desk)
    → cancel_immediately s booking paid ≡ ok r
    → IsSafe s
    → IsSafe r.1
unfolding cancel_immediately is_blocking blocking_booking_statuses
cancel_immediately-IsSafe s booking paid r h v = elim (Chain-of (lock_confirmed s booking.id) _ h) [
  | chain current hc h1 ↦
      elim (Chain-of
        (reserve_refund (change_status s current canceled_by_customer) booking.id
          (cumulative_target paid.amount_cents) true true)
        _ (then_passed (assert_transition (some current.status) canceled_by_customer) h1)) [
          | chain reserved hr h2 ↦
              elim (Chain-of (from_cents reserved.0.additional_amount_cents booking.currency) _
                h2) [
                  | chain expected he h3 ↦
                      subst (λ (x : CancelByCustomerResult × Desk). IsSafe x.1) (ok_injective h3)
                        (announce-IsSafe reserved.1 booking.id reserved.0.refund_id (
                          called_off-IsSafe s booking.id canceled_by_customer
                            (cumulative_target paid.amount_cents) true true current reserved hc refl
                            hr v))
                ]
        ]
]

is_open_head : (b : Bool) → not b ≡ true → (true && b) ≡ false
is_open_head b h = ground arith

pub open_request-IsSafe :
    (s : Desk) (booking : AppointmentRow) (suggested : Money) (r : CancelByCustomerResult × Desk)
    → open_request s booking suggested ≡ ok r
    → IsSafe s
    → IsSafe r.1
unfolding open_request
open_request-IsSafe s booking suggested r h v = elim (Chain-of (lock_confirmed s booking.id) _ h) [
  | chain current hc h1 ↦
      let (alone, h2) =
        guard_passed (not (any (is_open_for booking.id) s.requests)) booking_not_cancellable h1 in
      subst (λ (x : CancelByCustomerResult × Desk). IsSafe x.1) (ok_injective h2)
        (record {
          calendar_kept = v.calendar_kept;
          ledger_sound = v.ledger_sound;
          one_open = (is_open_head (any (is_open_for booking.id) s.requests) alone, v.one_open);
        })
]

pub carry_out-IsSafe :
    (s : Desk) (plan : CancelPlan) (r : CancelByCustomerResult × Desk)
    → carry_out s plan ≡ ok r
    → IsSafe s
    → IsSafe r.1
unfolding carry_out
carry_out-IsSafe s (at_once booking paid) r h v = cancel_immediately-IsSafe s booking paid r h v
carry_out-IsSafe s (late booking suggested) r h v = open_request-IsSafe s booking suggested r h v

close_open_requests-IsSafe : (s : Desk) (id : ℕ) → IsSafe s → IsSafe (close_open_requests s id)
unfolding close_open_requests
close_open_requests-IsSafe s id v = record {
  calendar_kept = v.calendar_kept;
  ledger_sound = v.ledger_sound;
  one_open = map-OneOpen (close_request id) (close_request-OpensNone id) s.requests v.one_open;
}

refund_typed-IsSafe :
    (s : Desk) (input : CancelByBusinessInput) (r : Option ℕ × Desk)
    → refund_typed s input ≡ ok r
    → IsSafe s
    → IsSafe r.1
unfolding refund_typed
refund_typed-IsSafe s input r h v = elim (Option-cases input.refund_amount_cents) [
  | inl absent ↦
      subst (λ (x : Option ℕ × Desk). IsSafe x.1) (ok_injective (rw (absent, refund_typed) at h)) v
  | inr (cents, typed) ↦
      elim (Chain-of
        (reserve_refund s input.booking_id (additional cents) (not (ltb_ℤ (pos 0) cents))
          input.may_issue_refunds)
        _ (rw (typed, refund_typed) at h)) [
          | chain reserved hr h1 ↦
              subst (λ (x : Option ℕ × Desk). IsSafe x.1) (ok_injective h1)
                (reserve_refund-IsSafe s input.booking_id (additional cents)
                  (not (ltb_ℤ (pos 0) cents)) input.may_issue_refunds reserved hr v)
        ]
]

pub cancel_by_business-IsSafe :
    (s : Desk) (input : CancelByBusinessInput) (r : Option ℕ × Desk)
    → cancel_by_business s input ≡ ok r
    → IsSafe s
    → IsSafe r.1
unfolding cancel_by_business is_blocking blocking_booking_statuses
cancel_by_business-IsSafe s input r h v = elim (Chain-of (lock_confirmed s input.booking_id) _ h) [
  | chain current hc h1 ↦
      let (found, is_confirmed) = lock_confirmed-found s input.booking_id current hc in
      let t = change_status s current canceled_by_business in
      elim (Chain-of (refund_typed t input) _
        (then_passed (assert_transition (some current.status) canceled_by_business) h1)) [
          | chain paid_back hp h2 ↦
              subst (λ (x : Option ℕ × Desk). IsSafe x.1) (ok_injective h2)
                (announce-IsSafe (close_open_requests paid_back.1 current.id) current.id paid_back.0
                  (close_open_requests-IsSafe paid_back.1 current.id (
                    refund_typed-IsSafe t input paid_back hp (
                      change_status-IsSafe s current canceled_by_business found is_confirmed refl
                        v))))
        ]
]

pub approve-IsSafe :
    (s : Desk) (booking : AppointmentRow) (paid retained : Money) (may : Bool)
    (r : RefundReservationResult × Desk)
    → approve s booking paid retained may ≡ ok r
    → IsSafe s
    → IsSafe r.1
unfolding approve is_blocking blocking_booking_statuses
approve-IsSafe s booking paid retained may r h v =
    elim (Chain-of (lock_confirmed s booking.id) _ h) [
      | chain current hc h1 ↦
          elim (Chain-of (minus paid retained) _
            (then_passed (assert_transition (some current.status) canceled_by_customer) h1)) [
              | chain target ht h2 ↦
                  elim (Chain-of
                    (reserve_refund (change_status s current canceled_by_customer) booking.id
                      (cumulative_target target.amount_cents) true may)
                    _ h2) [
                      | chain reserved hr h3 ↦
                          subst (λ (x : RefundReservationResult × Desk). IsSafe x.1)
                            (ok_injective h3)
                            (announce-IsSafe reserved.1 booking.id reserved.0.refund_id (
                              called_off-IsSafe s booking.id canceled_by_customer
                                (cumulative_target target.amount_cents) true may current reserved hc
                                refl hr v))
                    ]
            ]
    ]

write_decision-IsSafe :
    (s : Desk) (input : DecideRequestInput) (request : CancellationRequest)
    (booking : AppointmentRow) (paid retained : Money) (t : Desk)
    → write_decision s input request booking paid retained ≡ ok t
    → IsSafe s
    → IsSafe t
unfolding write_decision
write_decision-IsSafe s input request booking paid retained t h v =
    elim (Bool-cases input.approves) [
      | inr declined ↦ subst IsSafe (ok_injective (rw (declined, write_decision) at h)) (record {
        calendar_kept = v.calendar_kept;
        ledger_sound = v.ledger_sound;
        one_open =
            update_request-OneOpen reject_with reject_with-OpensNone request.id s.requests
              v.one_open;
      })
      | inl agreed ↦
          elim (Chain-of (approve s booking paid retained input.may_issue_refunds) _
            (rw (agreed, write_decision) at h)) [
              | chain reserved hr h1 ↦
                  let w =
                    approve-IsSafe s booking paid retained input.may_issue_refunds reserved hr v in
                  subst IsSafe (ok_injective h1) (record {
                    calendar_kept = w.calendar_kept;
                    ledger_sound = w.ledger_sound;
                    one_open =
                        update_request-OneOpen (approve_with retained reserved.0.refund_id)
                          (approve_with-OpensNone retained reserved.0.refund_id) request.id
                          reserved.1.requests w.one_open;
                  })
            ]
    ]

-- A decision that was written, and what it was made of.
pub data Decides (s : Desk) (input : DecideRequestInput) (t : Desk) : Type 0 where
  decides :
      (request : CancellationRequest) (booking : AppointmentRow) (paid retained : Money)
      → find_request s input.request_id ≡ ok request
      → load_booking s request.booking_id ≡ ok booking
      → is_open request.decision ≡ true
      → paid_total s booking.id booking.currency ≡ ok paid
      → validate_retained input request paid ≡ ok retained
      → write_decision s input request booking paid retained ≡ ok t
      → Decides s input t

pub decide_request-Decides :
    (s : Desk) (input : DecideRequestInput) (t : Desk)
    → decide_request s input ≡ ok t
    → Decides s input t
unfolding decide_request
decide_request-Decides s input t h = elim (Chain-of (find_request s input.request_id) _ h) [
  | chain request hf h1 ↦ elim (Chain-of (load_booking s request.booking_id) _ h1) [
    | chain booking hb h2 ↦
        let (waits, h3) = guard_passed (is_open request.decision) request_already_decided h2 in
        elim (Chain-of (paid_total s booking.id booking.currency) _ h3) [
          | chain paid hp h4 ↦ elim (Chain-of (validate_retained input request paid) _ h4) [
            | chain retained hv h5 ↦ decides request booking paid retained hf hb waits hp hv h5
          ]
        ]
  ]
]

pub decide_request-IsSafe :
    (s : Desk) (input : DecideRequestInput) (t : Desk)
    → decide_request s input ≡ ok t
    → IsSafe s
    → IsSafe t
decide_request-IsSafe s input t h v = elim (decide_request-Decides s input t h) [
  | decides request booking paid retained _ _ _ _ _ k ↦
      write_decision-IsSafe s input request booking paid retained t k v
]
