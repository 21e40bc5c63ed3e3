-- ===== src/Desk/Deciding.antt =====
-- booking-app/apps/api/src/booking/cancellation.service.ts: the office decides a request.
use shape_and_flow.Base.{
  ℕ, Bool, true, false, ◌||◌, not, Option, none, some, List, [], ◌∷◌, find, ◌==◌, if◌then◌else◌,
  Outcome, ok, err, not_found, request_already_decided, validation_failed, guard, ◌>>=◌, ◌>>◌,
}
use shape_and_flow.Base.Int.{ℤ, pos, ltb_ℤ}
use shape_and_flow.Money.{Money, from_cents, minus}
use shape_and_flow.Refund.Service.{cumulative_target, RefundReservationResult}
use shape_and_flow.Booking.Status.{canceled_by_customer, assert_transition}
use shape_and_flow.Calendar.Rows.{AppointmentRow}
use shape_and_flow.Desk.Rows.{approved, rejected, is_open, CancellationRequest, decided, Desk}
use shape_and_flow.Desk.Paid.{paid_total}
use shape_and_flow.Desk.Cancelling.{
  load_booking, lock_confirmed, change_status, reserve_refund, announce,
}

pub record DecideRequestInput : Type 0 where
  pub request_id : ℕ
  pub approves : Bool
  pub retained_amount_cents : Option ℤ
  pub may_issue_refunds : Bool

unfoldable pub find_request : Desk → ℕ → Outcome CancellationRequest
find_request s id = elim (find (λ r. r.id == id) s.requests) [
  | none ↦ err not_found
  | some request ↦ ok request
]

unfoldable pub update_request :
    ℕ
    → (CancellationRequest → CancellationRequest)
    → List CancellationRequest
    → List CancellationRequest
update_request id change [] = []
update_request id change (r ∷ rs) =
    if r.id == id then change r ∷ rs else r ∷ update_request id change rs

-- What was typed, or what was suggested when the request was made.
abbrev pub requested_cents : DecideRequestInput → CancellationRequest → ℤ
requested_cents input request = elim input.retained_amount_cents [
  | none ↦ request.suggested_retained_cents
  | some cents ↦ cents
]

unfoldable pub validate_retained : DecideRequestInput → CancellationRequest → Money → Outcome Money
unfolding from_cents
validate_retained input request paid =
    let cents = requested_cents input request in
    if ltb_ℤ cents (pos 0) || ltb_ℤ paid.amount_cents cents
    then err validation_failed
    else from_cents cents paid.currency

unfoldable pub approve :
    Desk → AppointmentRow → Money → Money → Bool → Outcome (RefundReservationResult × Desk)
unfolding lock_confirmed assert_transition change_status minus reserve_refund
approve s booking paid retained may_issue_refunds = do
  current ← lock_confirmed s booking.id
  assert_transition (some current.status) canceled_by_customer
  target ← minus paid retained
  reserved ←
      reserve_refund (change_status s current canceled_by_customer) booking.id
        (cumulative_target target.amount_cents) true may_issue_refunds
  ok (reserved.0, announce reserved.1 booking.id reserved.0.refund_id)

abbrev pub reject_with : CancellationRequest → CancellationRequest
reject_with r = record r { decision = rejected }

abbrev pub approve_with : Money → Option ℕ → CancellationRequest → CancellationRequest
approve_with retained refund_id r = record r {
  decision = approved;
  retained_cents = some retained.amount_cents;
  refund_id = refund_id;
}

-- What is written of a decision, given what is kept.
unfoldable pub write_decision :
    Desk → DecideRequestInput → CancellationRequest → AppointmentRow → Money → Money → Outcome Desk
unfolding approve update_request
write_decision s input request booking paid retained =
    if not input.approves
    then ok (record s {
      requests = update_request request.id reject_with s.requests;
      notices = decided request.id false (pos 0) (pos 0) ∷ s.notices;
    })
    else (approve s booking paid retained input.may_issue_refunds >>= λ reserved.
        ok (record reserved.1 {
          requests =
              update_request request.id (approve_with retained reserved.0.refund_id)
                reserved.1.requests;
          notices =
              decided request.id true retained.amount_cents reserved.0.additional_amount_cents
              ∷ reserved.1.notices;
        }))

unfoldable pub decide_request : Desk → DecideRequestInput → Outcome Desk
unfolding find_request load_booking paid_total validate_retained write_decision
decide_request s input = do
  request ← find_request s input.request_id
  booking ← load_booking s request.booking_id
  guard (is_open request.decision) request_already_decided
  paid ← paid_total s booking.id booking.currency
  retained ← validate_retained input request paid
  write_decision s input request booking paid retained
