-- ===== src/Desk/Paid.antt =====
-- booking-app/apps/api/src/office/received.ts and the reads of
-- booking-app/apps/api/src/payment/booking-financials.service.ts that it is given.
use shape_and_flow.Base.{ℕ, Bool, true, false, List, [], ◌∷◌, filter, ◌==◌, Outcome, ok, ◌>>=◌}
use shape_and_flow.Base.Text.{Text}
use shape_and_flow.Base.Int.{pos}
use shape_and_flow.Money.{Money, zero_money, from_cents, plus}
use shape_and_flow.Refund.Store.{
  PaymentStatus, pay_pending, pay_succeeded, pay_failed, partially_refunded, refunded, PaymentRow,
}
use shape_and_flow.Refund.Service.{root_booking_id}
use shape_and_flow.Desk.Rows.{ManualPaymentRow, Desk, books}

-- `RECEIVED_PAYMENT_STATUSES.includes`.
abbrev pub is_received : PaymentStatus → Bool
is_received pay_succeeded = true
is_received partially_refunded = true
is_received refunded = true
is_received pay_pending = false
is_received pay_failed = false

-- The two `reduce` of `receivedFrom`.
unfoldable pub add_cards : Money → List PaymentRow → Outcome Money
unfolding plus from_cents
add_cards total [] = ok total
add_cards total (p ∷ ps) = do
  amount ← from_cents (pos p.amount_cents) p.currency
  next ← plus total amount
  add_cards next ps

unfoldable pub add_manual : Money → List ManualPaymentRow → Outcome Money
unfolding plus from_cents
add_manual total [] = ok total
add_manual total (p ∷ ps) = do
  amount ← from_cents p.amount_cents p.currency
  next ← plus total amount
  add_manual next ps

unfoldable pub received_from : List PaymentRow → List ManualPaymentRow → Text → Outcome Money
unfolding add_cards add_manual
received_from payments manual_payments currency =
    add_cards (zero_money currency) (filter (λ p. is_received p.status) payments) >>= λ card.
    add_manual card manual_payments

-- `paidTotal`: the payments of the booking that the money is on.
unfoldable pub paid_total : Desk → ℕ → Text → Outcome Money
unfolding root_booking_id received_from
paid_total s booking_id currency = root_booking_id (books s) booking_id >>= λ root.
    received_from (filter (λ p. p.booking_id == root) s.ledger.payments)
      (filter (λ p. p.booking_id == root) s.manual_payments) currency
