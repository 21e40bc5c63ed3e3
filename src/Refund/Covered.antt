-- ===== src/Refund/Covered.antt =====
-- What the update of a refund does to the sums of its payment, and of the others.
use shape_and_flow.Base.{
  ℕ, ◌+◌, ◌≤◌, ◌≡◌, ◌≢◌, refl, inl, inr, Bool, true, false, none, some, List, [], ◌∷◌, arith, All,
  ◌==◌, Bool-cases,
}
use shape_and_flow.Refund.Store.{
  RefundStatus, pending, succeeded, failed, canceled, PaymentRow, RefundRow, find_refund,
  find_payment, sum_refunds, update_refund, update_payment, is_pending, is_succeeded,
}
use shape_and_flow.Refund.Settling.{Settlement, settle_row}
use shape_and_flow.Refund.Sums.{counted, sum_refunds-update, DistinctRefunds}
use shape_and_flow.Refund.Ledger.{IsCovered, DistinctPayments}

find_payment-update :
    (id key : ℕ) (change : PaymentRow → PaymentRow) (ps : List PaymentRow)
    → ((p : PaymentRow) → (change p).id ≡ p.id)
    → find_payment key ps ≡ none
    → find_payment key (update_payment id change ps) ≡ none
unfolding update_payment
find_payment-update id key change [] k h = refl
find_payment-update id key change (p ∷ ps) k h =
    ground (arith, k p, find_payment-update id key change ps k)

pub update_payment-DistinctPayments :
    (id : ℕ) (change : PaymentRow → PaymentRow) (ps : List PaymentRow)
    → ((p : PaymentRow) → (change p).id ≡ p.id)
    → DistinctPayments ps
    → DistinctPayments (update_payment id change ps)
unfolding update_payment
update_payment-DistinctPayments id change [] k d = tt
update_payment-DistinctPayments id change (p ∷ ps) k d = (
  ground (arith, k p, find_payment-update id p.id change ps k d.0),
  update_payment-DistinctPayments id change ps k d.1,
)

-- Other refunds and a changed payment are covered, if the change covers the payment itself.
pub IsCovered-update :
    (rs ts : List RefundRow) (id : ℕ) (change : PaymentRow → PaymentRow) (ps : List PaymentRow)
    → ((p : PaymentRow) → p.id ≢ id → IsCovered rs p → IsCovered ts p)
    → ((p : PaymentRow) → p.id ≡ id → IsCovered rs p → IsCovered ts (change p))
    → All (IsCovered rs) ps
    → All (IsCovered ts) (update_payment id change ps)
unfolding update_payment
IsCovered-update rs ts id change [] other own c = tt
IsCovered-update rs ts id change (p ∷ ps) other own c = elim (Bool-cases (p.id == id)) [
  | inl hit ↦
      rw (hit, update_payment)
        (own p (ground arith) c.0, IsCovered-update rs ts id change ps other own c.1)
  | inr miss ↦
      rw (miss, update_payment)
        (other p (ground arith) c.0, IsCovered-update rs ts id change ps other own c.1)
]

-- A payment that the refund is not of keeps its sums.
pub sum_refunds-other :
    (test : RefundStatus → Bool) (payment now : ℕ) (input : Settlement) (rs : List RefundRow)
    (r : RefundRow)
    → find_refund input.refund_id rs ≡ some r
    → DistinctRefunds rs
    → payment ≢ r.payment_id
    → sum_refunds test payment (update_refund input.refund_id (settle_row now input) rs)
      ≡ sum_refunds test payment rs
unfolding settle_row
sum_refunds-other test payment now input rs r h d n =
    let step = sum_refunds-update test payment input.refund_id (settle_row now input) rs r h d in
    let out : (r.payment_id == payment) ≡ false = ground arith in
    let before : counted test payment r ≡ 0 = ground arith in
    let after : counted test payment (settle_row now input r) ≡ 0 = ground arith in omega arith

-- A row counts at most once, as settled or as open.
counted_once :
    (payment : ℕ) (r : RefundRow)
    → counted is_succeeded payment r + counted is_pending payment r ≤ r.amount_cents
counted_once payment r = elim r.status [
  | pending ↦ ground arith
  | succeeded ↦ ground arith
  | failed ↦ ground arith
  | canceled ↦ ground arith
]

pending-not_succeeded : (s : RefundStatus) → is_pending s ≡ true → is_succeeded s ≡ false
pending-not_succeeded pending h = refl
pending-not_succeeded succeeded h = cc
pending-not_succeeded failed h = cc
pending-not_succeeded canceled h = cc

-- The sum of what is settled and what is open does not grow.
pub sum_refunds-settle :
    (now : ℕ) (input : Settlement) (rs : List RefundRow) (r : RefundRow)
    → find_refund input.refund_id rs ≡ some r
    → is_pending r.status ≡ true
    → DistinctRefunds rs
    → let ts = update_refund input.refund_id (settle_row now input) rs in
      sum_refunds is_succeeded r.payment_id ts + sum_refunds is_pending r.payment_id ts
      ≤ sum_refunds is_succeeded r.payment_id rs + sum_refunds is_pending r.payment_id rs
unfolding settle_row
sum_refunds-settle now input rs r h w d =
    let change = settle_row now input in
    let won = sum_refunds-update is_succeeded r.payment_id input.refund_id change rs r h d in
    let waits = sum_refunds-update is_pending r.payment_id input.refund_id change rs r h d in
    let once : counted is_succeeded r.payment_id (change r)
          + counted is_pending r.payment_id (change r)
        ≤ r.amount_cents =
      counted_once r.payment_id (change r) in
    let here : (r.payment_id == r.payment_id) ≡ true = ground arith in
    let first : counted is_succeeded r.payment_id r ≡ 0 =
      ground (arith, pending-not_succeeded r.status w) in
    let second : counted is_pending r.payment_id r ≡ r.amount_cents = ground arith in omega arith

-- The refund that an update is made of is found again, changed.
pub find_refund-settled :
    (id : ℕ) (change : RefundRow → RefundRow) (rs : List RefundRow) (r : RefundRow)
    → ((q : RefundRow) → (change q).id ≡ q.id)
    → find_refund id rs ≡ some r
    → find_refund id (update_refund id change rs) ≡ some (change r)
unfolding update_refund
find_refund-settled id change [] r k h = cc
find_refund-settled id change (q ∷ rs) r k h = elim (Bool-cases (q.id == id)) [
  | inl hit ↦ let same : q ≡ r = ground arith in ground (arith, k q, hit, same)
  | inr miss ↦ ground (arith, find_refund-settled id change rs r k)
]
