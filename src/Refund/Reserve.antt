-- ===== src/Refund/Reserve.antt =====
-- Reserving a refund: how much is reserved, and that it stays within the charge.
use shape_and_flow.Base.{
  ℕ, ◌+◌, ◌≤◌, ◌<◌, ◌≡◌, ◌⊎◌, sym, ap, ap₂, ◌∙◌, inl, inr, Bool, true, false, ◌&&◌, not, none, some,
  ◌∷◌, arith, In, In-find, find-passes, ◌==◌, find, Bool-cases, ok, Chain-of, chain, ok_injective,
  Option-cases,
}
use shape_and_flow.Base.Text.{Text}
use shape_and_flow.Base.Int.{ℤ, pos, pos_part, ◌+ℤ◌, ◌-ℤ◌, ltb_ℤ, leb_ℤ}
use shape_and_flow.Money.{Money, from_cents, plus, minus}
use shape_and_flow.Money.Laws.{plus-ok, minus-ok}
use shape_and_flow.Refund.Store.{
  BookingRow, PaymentRow, pending, refund_requested, find_booking, sum_refunds, is_pending,
  is_settled_payment, Store,
}
use shape_and_flow.Refund.Service.{
  is_additional, ReserveRefundInput, RefundReservationResult, root_booking_id, lock_payment,
  additional_for, create_refund, conclude, reserve_against, reserve_in_transaction,
}

pub from_cents-ok :
    (a : ℤ) (c : Text) (m : Money) → from_cents a c ≡ ok m → (m.amount_cents ≡ a) × (m.currency ≡ c)
unfolding from_cents
from_cents-ok a c m h = ground arith

-- The payment is a settled one of the booking's financial root: of the booking that it was moved
-- from in the end, or of the booking itself.
pub data PaysFor (s : Store) (booking_id : ℕ) (payment : PaymentRow) : Type 0 where
  pays_for :
      (b : BookingRow)
      → find_booking booking_id s.bookings ≡ some b
      → (b.financial_root ≡ some payment.booking_id)
        ⊎ ((b.financial_root ≡ none) × (b.id ≡ payment.booking_id))
      → is_settled_payment payment.status ≡ true
      → PaysFor s booking_id payment

-- The store with one more open refund, its event, and the next ids used.
abbrev pub with_refund : Store → ℕ → ℕ → ℕ → Store
with_refund s booking_id payment_id cents = record {
  bookings = s.bookings;
  payments = s.payments;
  refunds =
      record {
        id = s.next_id;
        booking_id = booking_id;
        payment_id = payment_id;
        amount_cents = cents;
        status = pending;
        idempotency_key = s.next_id + 1;
        stripe_refund_id = none;
        settled_at = none;
      }
      ∷ s.refunds;
  outbox = refund_requested s.next_id ∷ s.outbox;
  next_id = s.next_id + 2;
}

-- What a reservation does to the store: nothing, or one new refund of some cents that the payment
-- of the booking still has.
pub data Reserves (s : Store) (input : ReserveRefundInput) (r : RefundReservationResult) (t : Store)
    : Type 0 where
  nothing : r.refund_id ≡ none → t ≡ s → Reserves s input r t
  reserves :
      (payment : PaymentRow) (cents : ℕ)
      → In payment s.payments
      → PaysFor s input.booking_id payment
      → 0 < cents
      → payment.refunded_amount_cents + sum_refunds is_pending payment.id s.refunds + cents
        ≤ payment.amount_cents
      → r.refund_id ≡ some s.next_id
      → r.additional_amount_cents ≡ pos cents
      → t ≡ with_refund s input.booking_id payment.id cents
      → Reserves s input r t

-- The arithmetic of a reservation that is made.
fits_arith :
    (whole back open_sum : ℕ) (left extra : ℤ)
    → left ≡ pos whole -ℤ (pos back +ℤ pos open_sum)
    → leb_ℤ extra (pos 0) ≡ false
    → ltb_ℤ left extra ≡ false
    → (0 < pos_part extra)
      × (back + open_sum + pos_part extra ≤ whole)
      × (extra ≡ pos (pos_part extra))
unfolding ◌-ℤ◌ ◌+ℤ◌
fits_arith whole back open_sum left extra e p q = ground arith

conclude-Reserves :
    (s : Store) (input : ReserveRefundInput) (payment : PaymentRow) (refundable extra : Money)
    (r : RefundReservationResult × Store)
    → In payment s.payments
    → PaysFor s input.booking_id payment
    → refundable.amount_cents
      ≡ pos payment.amount_cents
        -ℤ (pos payment.refunded_amount_cents +ℤ pos (sum_refunds is_pending payment.id s.refunds))
    → conclude s input payment refundable extra ≡ ok r
    → Reserves s input r.0 r.1
unfolding conclude create_refund
conclude-Reserves s input payment refundable extra r i o e h =
    elim (Bool-cases (leb_ℤ extra.amount_cents (pos 0))) [
      | inl none_left ↦ elim (Bool-cases (is_additional input.amount && not input.lenient)) [
        | inl strict ↦ ground (arith, rw (none_left, conclude, strict) at h)
        | inr lenient ↦
            let e = ok_injective (rw (none_left, conclude, lenient) at h) in
            nothing (sym (ap (λ x. x.0.refund_id) e)) (sym (ap (λ x. x.1) e))
      ]
      | inr some_left ↦ elim (Bool-cases (ltb_ℤ refundable.amount_cents extra.amount_cents)) [
        | inl too_much ↦ ground (arith, rw (some_left, conclude, too_much) at h)
        | inr fits ↦
            let same = ok_injective (rw (some_left, conclude, fits) at h) in
            let (some_cents, within, whole) =
              fits_arith payment.amount_cents payment.refunded_amount_cents
                (sum_refunds is_pending payment.id s.refunds) refundable.amount_cents
                extra.amount_cents e some_left fits in
            reserves payment (pos_part extra.amount_cents) i o some_cents within
              (sym (ap (λ x. x.0.refund_id) same))
              (sym (ap (λ x. x.0.additional_amount_cents) same) ∙ whole) (sym (ap (λ x. x.1) same))
      ]
    ]

reserve_against-Reserves :
    (s : Store) (input : ReserveRefundInput) (payment : PaymentRow)
    (r : RefundReservationResult × Store)
    → In payment s.payments
    → PaysFor s input.booking_id payment
    → reserve_against s input payment ≡ ok r
    → Reserves s input r.0 r.1
unfolding reserve_against
reserve_against-Reserves s input payment r i o h =
    let back = payment.refunded_amount_cents in
    let open_sum = sum_refunds is_pending payment.id s.refunds in
    elim (Chain-of (from_cents (pos back) payment.currency) _ h) [
      | chain settled hs h1 ↦ elim (Chain-of (from_cents (pos open_sum) payment.currency) _ h1) [
        | chain waiting hw h2 ↦ elim (Chain-of (plus settled waiting) _ h2) [
          | chain reserved hr h3 ↦
              elim (Chain-of (from_cents (pos payment.amount_cents) payment.currency) _ h3) [
                | chain whole ha h4 ↦ elim (Chain-of (minus whole reserved) _ h4) [
                  | chain refundable hl h5 ↦
                      elim (Chain-of (additional_for input.amount reserved refundable) _ h5) [
                        | chain extra he h6 ↦
                            conclude-Reserves s input payment refundable extra r i o
                              ((minus-ok whole reserved refundable hl).2
                                ∙ ap₂ ◌-ℤ◌
                                    (from_cents-ok (pos payment.amount_cents) payment.currency whole
                                      ha).0
                                    ((plus-ok settled waiting reserved hr).2
                                      ∙ ap₂ ◌+ℤ◌
                                          (from_cents-ok (pos back) payment.currency settled hs).0
                                          (from_cents-ok (pos open_sum) payment.currency waiting
                                            hw).0))
                              h6
                      ]
                ]
              ]
        ]
      ]
    ]

lock_payment-In :
    (s : Store) (booking : ℕ) (lenient : Bool) (p : PaymentRow)
    → lock_payment s booking lenient ≡ ok (some p)
    → In p s.payments
unfolding lock_payment
lock_payment-In s booking lenient p h =
    elim (Option-cases
      (find (λ q. q.booking_id == booking && is_settled_payment q.status) s.payments)) [
        | inl e ↦ ground (arith, rw (e, lock_payment) at h)
        | inr (q, e) ↦
            let found : ok (some q) ≡ ok (some p) = rw (e, lock_payment) at h in
            In-find _ s.payments p (e ∙ ok_injective found)
      ]

lock_payment-PaysFor :
    (s : Store) (booking root : ℕ) (lenient : Bool) (p : PaymentRow)
    → root_booking_id s booking ≡ ok root
    → lock_payment s root lenient ≡ ok (some p)
    → PaysFor s booking p
unfolding lock_payment root_booking_id
lock_payment-PaysFor s booking root lenient p hr hp =
    elim (Option-cases
      (find (λ q. q.booking_id == root && is_settled_payment q.status) s.payments)) [
        | inl e ↦ ground (arith, rw (e, lock_payment) at hp)
        | inr (q, e) ↦
            let same : some q ≡ some p = ok_injective (rw (e, lock_payment) at hp) in
            let passes : (p.booking_id == root && is_settled_payment p.status) ≡ true =
              find-passes _ s.payments p (e ∙ same) in
            let here : root ≡ p.booking_id = ground arith in
            elim (Option-cases (find_booking booking s.bookings)) [
              | inl f ↦ absurd (cc (rw (f, root_booking_id) at hr))
              | inr (b, f) ↦ elim (Option-cases b.financial_root) [
                | inl g ↦
                    let own : b.id ≡ root = ok_injective (rw (f, root_booking_id, g) at hr) in
                    pays_for b f (inr (g, own ∙ here)) (ground arith)
                | inr (first, g) ↦
                    let own : first ≡ root = ok_injective (rw (f, root_booking_id, g) at hr) in
                    pays_for b f (inl (g ∙ ap some (own ∙ here))) (ground arith)
              ]
            ]
      ]

-- Whatever is asked, a reservation that returns either leaves all as it was, or adds one open
-- refund to a settled payment of the booking's financial root, and its event: its cents are those
-- that the result tells, at least one, and on top of what has gone back and what is on its way they
-- stay within the charge. All else in the store stays.
pub reserve_in_transaction-Reserves :
    (s : Store) (input : ReserveRefundInput) (r : RefundReservationResult × Store)
    → reserve_in_transaction s input ≡ ok r
    → Reserves s input r.0 r.1
unfolding reserve_in_transaction
reserve_in_transaction-Reserves s input r h =
    elim (Chain-of (root_booking_id s input.booking_id) _ h) [
      | chain root hr h1 ↦ elim (Chain-of (lock_payment s root input.lenient) _ h1) [
        | chain payment hp h2 ↦ elim (Option-cases payment) [
          | inl e ↦
              let same = ok_injective (rw e at h2) in
              nothing (sym (ap (λ x. x.0.refund_id) same)) (sym (ap (λ x. x.1) same))
          | inr (p, e) ↦
              reserve_against-Reserves s input p r
                (lock_payment-In s root input.lenient p (hp ∙ ap ok e))
                (lock_payment-PaysFor s input.booking_id root input.lenient p hr (hp ∙ ap ok e))
                (rw e at h2)
        ]
      ]
    ]
