-- ===== src/Desk/Rights.antt =====
-- Who may not move money moves none, and a request is answered once.
use shape_and_flow.Base.{
  ℕ, ◌<◌, ◌≡◌, sym, ap, inl, inr, Bool, true, false, not, Option, none, some, arith, Bool-cases,
  Option-cases, ok, Chain-of, chain, ok_injective, ◌∙◌,
}
use shape_and_flow.Base.Int.{pos, ltb_ℤ}
use shape_and_flow.Money.{Money, minus}
use shape_and_flow.Refund.Store.{Store}
use shape_and_flow.Refund.Service.{
  RefundAmount, RefundReservationResult, additional, cumulative_target,
}
use shape_and_flow.Refund.Reserve.{nothing, reserves, reserve_in_transaction-Reserves}
use shape_and_flow.Booking.Status.{canceled_by_customer, canceled_by_business, assert_transition}
use shape_and_flow.Calendar.Rows.{AppointmentRow}
use shape_and_flow.Desk.Rows.{Desk, books}
use shape_and_flow.Desk.Cancelling.{
  lock_confirmed, change_status, reserve_refund, announce, close_open_requests,
  CancelByBusinessInput, refund_typed, cancel_by_business,
}
use shape_and_flow.Desk.Deciding.{DecideRequestInput, approve, write_decision, decide_request}
use shape_and_flow.Desk.Safe.{refunds, reserve_refund-Refunds}
use shape_and_flow.Desk.Steps.{then_passed, decides, decide_request-Decides}

some_cents : (n : ℕ) → 0 < n → ltb_ℤ (pos 0) (pos n) ≡ true
some_cents n h = ground arith

-- A reservation that was let through without the right to it made no refund.
reserve_refund-unprivileged :
    (s : Desk) (id : ℕ) (amount : RefundAmount) (lenient : Bool)
    (r : RefundReservationResult × Desk)
    → reserve_refund s id amount lenient false ≡ ok r
    → (r.1.ledger.refunds ≡ s.ledger.refunds) × (r.0.refund_id ≡ none)
reserve_refund-unprivileged s id amount lenient r h =
    elim (reserve_refund-Refunds s id amount lenient false r h) [
      | refunds q hq allowed e ↦ elim (reserve_in_transaction-Reserves (books s) _ q hq) [
        | nothing n same ↦ (
          ap (λ (x : RefundReservationResult × Desk). x.1.ledger.refunds) e
              ∙ ap (λ (x : Store). x.refunds) same,
          ap (λ (x : RefundReservationResult × Desk). x.0.refund_id) e ∙ n,
        )
        | reserves payment cents i _ some_left fits rid moved same ↦
            absurd (cc (rw (moved, some_cents cents some_left) at allowed))
      ]
    ]

module _ (s : Desk) (input : CancelByBusinessInput) (bare : input.may_issue_refunds ≡ false) where
  refund_typed-unprivileged :
      (r : Option ℕ × Desk) → refund_typed s input ≡ ok r → r.1.ledger.refunds ≡ s.ledger.refunds
  unfolding refund_typed
  refund_typed-unprivileged r h = elim (Option-cases input.refund_amount_cents) [
    | inl absent ↦ sym (
        ap (λ (x : Option ℕ × Desk). x.1.ledger.refunds)
          (ok_injective (rw (absent, refund_typed) at h)))
    | inr (cents, typed) ↦
        elim (Chain-of
          (reserve_refund s input.booking_id (additional cents) (not (ltb_ℤ (pos 0) cents)) false) _
          (rw (typed, bare, refund_typed) at h)) [
            | chain reserved hr h1 ↦
                sym (ap (λ (x : Option ℕ × Desk). x.1.ledger.refunds) (ok_injective h1))
                ∙ (reserve_refund-unprivileged s input.booking_id (additional cents)
                    (not (ltb_ℤ (pos 0) cents)) reserved hr).0
          ]
  ]

-- A cancellation by the business that returned, by a user who may not issue refunds, left the refunds
-- as they were, whatever amount was typed.
pub cancel_by_business-unprivileged :
    (s : Desk) (input : CancelByBusinessInput) (r : Option ℕ × Desk)
    → input.may_issue_refunds ≡ false
    → cancel_by_business s input ≡ ok r
    → r.1.ledger.refunds ≡ s.ledger.refunds
unfolding cancel_by_business change_status close_open_requests
cancel_by_business-unprivileged s input r bare h =
    elim (Chain-of (lock_confirmed s input.booking_id) _ h) [
      | chain current hc h1 ↦
          elim (Chain-of (refund_typed (change_status s current canceled_by_business) input) _
            (then_passed (assert_transition (some current.status) canceled_by_business) h1)) [
              | chain paid_back hp h2 ↦
                  sym (ap (λ (x : Option ℕ × Desk). x.1.ledger.refunds) (ok_injective h2))
                  ∙ refund_typed-unprivileged (change_status s current canceled_by_business) input
                      bare paid_back hp
            ]
    ]

-- What an approval that returned has done.
pub data Approves (s : Desk) (booking : AppointmentRow) (paid retained : Money) (may : Bool)
    (r : RefundReservationResult × Desk) : Type 0 where
  approves :
      (current : AppointmentRow) (target : Money) (reserved : RefundReservationResult × Desk)
      → lock_confirmed s booking.id ≡ ok current
      → minus paid retained ≡ ok target
      → reserve_refund
          (change_status s current canceled_by_customer)
          booking.id
          (cumulative_target target.amount_cents)
          true
          may
        ≡ ok reserved
      → r ≡ (reserved.0, announce reserved.1 booking.id reserved.0.refund_id)
      → Approves s booking paid retained may r

pub approve-Approves :
    (s : Desk) (booking : AppointmentRow) (paid retained : Money) (may : Bool)
    (r : RefundReservationResult × Desk)
    → approve s booking paid retained may ≡ ok r
    → Approves s booking paid retained may r
unfolding approve
approve-Approves s booking paid retained may r h =
    elim (Chain-of (lock_confirmed s booking.id) _ h) [
      | chain current hc h1 ↦
          elim (Chain-of (minus paid retained) _
            (then_passed (assert_transition (some current.status) canceled_by_customer) h1)) [
              | chain target ht h2 ↦
                  elim (Chain-of
                    (reserve_refund (change_status s current canceled_by_customer) booking.id
                      (cumulative_target target.amount_cents) true may)
                    _ h2) [
                      | chain reserved hr h3 ↦
                          approves current target reserved hc ht hr (sym (ok_injective h3))
                    ]
            ]
    ]

-- A decision by a user who may not issue refunds that returned left the refunds as they were, whether
-- it approved or not.
pub decide_request-unprivileged :
    (s : Desk) (input : DecideRequestInput) (t : Desk)
    → input.may_issue_refunds ≡ false
    → decide_request s input ≡ ok t
    → t.ledger.refunds ≡ s.ledger.refunds
unfolding write_decision change_status
decide_request-unprivileged s input t bare h = elim (decide_request-Decides s input t h) [
  | decides request booking paid retained _ _ _ _ _ k ↦ elim (Bool-cases input.approves) [
    | inr declined ↦
        sym
          (ap (λ (x : Desk). x.ledger.refunds) (ok_injective (rw (declined, write_decision) at k)))
    | inl agreed ↦
        elim (Chain-of (approve s booking paid retained false) _
          (rw (agreed, bare, write_decision) at k)) [
            | chain r hr h1 ↦ elim (approve-Approves s booking paid retained false r hr) [
              | approves current target reserved hc ht hq e ↦
                  sym (ap (λ (x : Desk). x.ledger.refunds) (ok_injective h1))
                  ∙ ap (λ (x : RefundReservationResult × Desk). x.1.ledger.refunds) e
                  ∙ (reserve_refund-unprivileged (change_status s current canceled_by_customer)
                      booking.id (cumulative_target target.amount_cents) true reserved hq).0
            ]
          ]
  ]
]
