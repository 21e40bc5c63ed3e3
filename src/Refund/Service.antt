-- ===== src/Refund/Service.antt =====
-- booking-app/apps/api/src/payment/refund.service.ts: the request and the reservation of a refund. A
-- throw rolls the transaction back, so it returns no store.
use shape_and_flow.Base.{
  ℕ, ◌+◌, Bool, true, false, ◌&&◌, not, Option, none, some, ◌∷◌, ◌==◌, if◌then◌else◌, find, Outcome,
  ok, err, payment_not_refundable, not_found, ◌>>=◌,
}
use shape_and_flow.Base.Int.{ℤ, pos, pos_part, ltb_ℤ, leb_ℤ}
use shape_and_flow.Money.{Money, zero_money, from_cents, plus, minus, less_than}
use shape_and_flow.Refund.Store.{
  pending, is_pending, is_settled_payment, PaymentRow, refund_requested, Store, find_booking,
  sum_refunds,
}

pub data RefundAmount : Type 0 where
  additional cumulative_target : ℤ → RefundAmount

pub record ReserveRefundInput : Type 0 where
  pub booking_id : ℕ
  pub amount : RefundAmount
  pub lenient : Bool

pub record RefundReservationResult : Type 0 where
  pub refund_id : Option ℕ
  pub additional_amount_cents : ℤ
  pub refundable_amount_cents : ℤ

abbrev pub is_additional : RefundAmount → Bool
is_additional (additional a) = true
is_additional (cumulative_target a) = false

-- `rootBookingId` of booking-financials.service.ts, among the rows of the caller's organization.
unfoldable pub root_booking_id : Store → ℕ → Outcome ℕ
root_booking_id s id = elim (find_booking id s.bookings) [
  | none ↦ err not_found
  | some b ↦ elim b.financial_root [ none ↦ ok b.id | some root ↦ ok root ]
]

unfoldable pub lock_payment : Store → ℕ → Bool → Outcome (Option PaymentRow)
lock_payment s booking lenient =
    elim (find (λ p. p.booking_id == booking && is_settled_payment p.status) s.payments) [
      | some p ↦ ok (some p)
      | none ↦ if lenient then ok none else err payment_not_refundable
    ]

unfoldable pub additional_for : RefundAmount → Money → Money → Outcome Money
unfolding from_cents minus less_than
additional_for (additional a) reserved refundable = from_cents a refundable.currency
additional_for (cumulative_target target) reserved refundable = do
  goal ← from_cents target reserved.currency
  outstanding ← minus goal reserved
  less ← less_than outstanding refundable
  ok (
      if leb_ℤ outstanding.amount_cents (pos 0)
      then zero_money refundable.currency
      else if less
      then outstanding
      else refundable)

-- The rows written once an amount is reserved; the two fresh ids are the row's and the key's.
unfoldable pub create_refund : Store → ReserveRefundInput → PaymentRow → ℕ → Store
create_refund s input payment cents = record s {
  refunds =
      record {
        id = s.next_id;
        booking_id = input.booking_id;
        payment_id = payment.id;
        amount_cents = cents;
        status = pending;
        idempotency_key = s.next_id + 1;
        stripe_refund_id = none;
        settled_at = none;
      }
      ∷ s.refunds;
  outbox = refund_requested s.next_id ∷ s.outbox;
  next_id = s.next_id + 2;
}

-- What is decided once the amount is known.
unfoldable pub conclude :
    Store
    → ReserveRefundInput
    → PaymentRow
    → Money
    → Money
    → Outcome (RefundReservationResult × Store)
unfolding create_refund
conclude s input payment refundable extra =
    if leb_ℤ extra.amount_cents (pos 0)
    then (if is_additional input.amount && not input.lenient
        then err payment_not_refundable
        else ok (
          record {
            refund_id = none;
            additional_amount_cents = pos 0;
            refundable_amount_cents = refundable.amount_cents;
          },
          s,
        ))
    else (if ltb_ℤ refundable.amount_cents extra.amount_cents
        then err payment_not_refundable
        else ok (
          record {
            refund_id = some s.next_id;
            additional_amount_cents = extra.amount_cents;
            refundable_amount_cents = refundable.amount_cents;
          },
          create_refund s input payment (pos_part extra.amount_cents),
        ))

unfoldable pub reserve_against :
    Store → ReserveRefundInput → PaymentRow → Outcome (RefundReservationResult × Store)
unfolding additional_for conclude from_cents plus minus sum_refunds
reserve_against s input payment = do
  settled ← from_cents (pos payment.refunded_amount_cents) payment.currency
  open_sum ← from_cents (pos (sum_refunds is_pending payment.id s.refunds)) payment.currency
  reserved ← plus settled open_sum
  whole ← from_cents (pos payment.amount_cents) payment.currency
  refundable ← minus whole reserved
  extra ← additional_for input.amount reserved refundable
  conclude s input payment refundable extra

unfoldable pub reserve_in_transaction :
    Store → ReserveRefundInput → Outcome (RefundReservationResult × Store)
unfolding root_booking_id lock_payment reserve_against
reserve_in_transaction s input = do
  root ← root_booking_id s input.booking_id
  payment ← lock_payment s root input.lenient
  elim payment [
    | none ↦ ok (
      record { refund_id = none; additional_amount_cents = pos 0; refundable_amount_cents = pos 0 },
      s,
    )
    | some p ↦ reserve_against s input p
  ]

unfoldable pub request : Store → ℕ → ℤ → Outcome (ℕ × Store)
unfolding reserve_in_transaction
request s booking_id amount = do
  reserved ←
      reserve_in_transaction s
        (record { booking_id = booking_id; amount = additional amount; lenient = false })
  elim reserved.0.refund_id [ none ↦ err payment_not_refundable | some id ↦ ok (id, reserved.1) ]
