-- ===== src/Refund/Store.antt =====
-- The rows that the refund service reads and writes, and the queries it makes of them. Of a row the
-- columns are kept that the service decides by.
use shape_and_flow.Base.{
  ℕ, ◌+◌, Bool, true, false, ◌&&◌, Option, List, [], ◌∷◌, ◌==◌, if◌then◌else◌, find,
}
use shape_and_flow.Base.Text.{Text}

pub data RefundStatus : Type 0 where
  pending succeeded failed canceled : RefundStatus

pub data PaymentStatus : Type 0 where
  pay_pending pay_succeeded pay_failed partially_refunded refunded : PaymentStatus

abbrev pub is_pending : RefundStatus → Bool
is_pending pending = true
is_pending _ = false

abbrev pub is_succeeded : RefundStatus → Bool
is_succeeded succeeded = true
is_succeeded _ = false

-- `status IN ('SUCCEEDED', 'PARTIALLY_REFUNDED')`.
abbrev pub is_settled_payment : PaymentStatus → Bool
is_settled_payment pay_succeeded = true
is_settled_payment partially_refunded = true
is_settled_payment _ = false

-- Ids are numbers, given by the store as rows are made.
pub record BookingRow : Type 0 where
  pub id : ℕ
  pub financial_root : Option ℕ

pub record PaymentRow : Type 0 where
  pub id : ℕ
  pub booking_id : ℕ
  pub amount_cents : ℕ
  pub refunded_amount_cents : ℕ
  pub currency : Text
  pub status : PaymentStatus
  pub charge_id : Option ℕ

pub record RefundRow : Type 0 where
  pub id : ℕ
  pub booking_id : ℕ
  pub payment_id : ℕ
  pub amount_cents : ℕ
  pub status : RefundStatus
  pub idempotency_key : ℕ
  pub stripe_refund_id : Option ℕ
  pub settled_at : Option ℕ

-- Rows of the outbox.
pub data Event : Type 0 where
  refund_requested refund_succeeded : ℕ → Event

-- `payments` in the order of their creation.
pub record Store : Type 0 where
  pub bookings : List BookingRow
  pub payments : List PaymentRow
  pub refunds : List RefundRow
  pub outbox : List Event
  pub next_id : ℕ

abbrev pub find_booking : ℕ → List BookingRow → Option BookingRow
find_booking id = find (λ b. b.id == id)

abbrev pub find_payment : ℕ → List PaymentRow → Option PaymentRow
find_payment id = find (λ p. p.id == id)

abbrev pub find_refund : ℕ → List RefundRow → Option RefundRow
find_refund id = find (λ r. r.id == id)

-- `_sum: { amountCents }` over the refunds of a payment in the statuses of the test.
unfoldable pub sum_refunds : (RefundStatus → Bool) → ℕ → List RefundRow → ℕ
sum_refunds test payment [] = 0
sum_refunds test payment (r ∷ rs) =
    (if r.payment_id == payment && test r.status then r.amount_cents else 0)
    + sum_refunds test payment rs

-- `update({ where: { id } })`.
unfoldable pub update_refund : ℕ → (RefundRow → RefundRow) → List RefundRow → List RefundRow
update_refund id change [] = []
update_refund id change (r ∷ rs) = (if r.id == id then change r else r) ∷ update_refund id change rs

unfoldable pub update_payment : ℕ → (PaymentRow → PaymentRow) → List PaymentRow → List PaymentRow
update_payment id change [] = []
update_payment id change (p ∷ ps) =
    (if p.id == id then change p else p) ∷ update_payment id change ps
