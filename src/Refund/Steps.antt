-- ===== src/Refund/Steps.antt =====
-- Every call of the refund service leaves a sound ledger sound.
use shape_and_flow.Base.{
  ℕ, ◌+◌, ◌≤◌, ◌≡◌, ◌≢◌, refl, sym, ap, subst, inl, inr, true, false, ◌||◌, Option, none, some,
  List, [], ◌∷◌, arith, In, ◌==◌, find, Bool-cases, Option-cases, ok, Chain-of, chain, ok_injective,
}
use shape_and_flow.Refund.Store.{
  failed, PaymentRow, RefundRow, find_refund, find_payment, sum_refunds, is_pending, is_succeeded,
  Store,
}
use shape_and_flow.Base.Int.{ℤ}
use shape_and_flow.Refund.Service.{
  request, additional, ReserveRefundInput, RefundReservationResult, create_refund,
  reserve_in_transaction,
}
use shape_and_flow.Refund.Settling.{
  apply_settlement, execute, record_answer, apply_provider_update, is_some_num, ProviderAnswer,
  answered, rejected, unreachable, RefundCall, RefundStatusValue, provider_status, ExecuteOutcome,
}
use shape_and_flow.Refund.Sums.{Fresh-find, Fresh-mono}
use shape_and_flow.Refund.Ledger.{IsCovered, DistinctPayments, IsSound, IsCovered-change}
use shape_and_flow.Refund.Overtaking.{Extends, as_read}
use shape_and_flow.Refund.Reserve.{nothing, reserves, reserve_in_transaction-Reserves}
use shape_and_flow.Refund.Settle.{apply_settlement-IsSound}

absent-other :
    (id : ℕ) (ps : List PaymentRow) (p : PaymentRow)
    → find_payment id ps ≡ none
    → In p ps
    → p.id ≢ id
absent-other id [] p h i = ground arith
absent-other id (q ∷ ps) p h (inl e) = ground (arith, ap (λ x. x.id) e)
absent-other id (q ∷ ps) p h (inr i) = absent-other id ps p (ground arith) i

-- Where ids are distinct, a payment is found by its id.
find_payment-In :
    (ps : List PaymentRow) (p : PaymentRow)
    → DistinctPayments ps
    → In p ps
    → find_payment p.id ps ≡ some p
find_payment-In [] p d i = ground arith
find_payment-In (q ∷ ps) p d (inl e) = rw e (ground arith)
find_payment-In (q ∷ ps) p d (inr i) =
    ground (arith, absent-other q.id ps p d.0 i, find_payment-In ps p d.1 i)

-- A new open row counts for its payment alone, as open.
created-IsCovered :
    (rs : List RefundRow) (r : RefundRow) (p : PaymentRow)
    → is_pending r.status ≡ true
    → is_succeeded r.status ≡ false
    → (r.payment_id ≡ p.id
        → p.refunded_amount_cents + sum_refunds is_pending p.id rs + r.amount_cents
          ≤ p.amount_cents)
    → IsCovered rs p
    → IsCovered (r ∷ rs) p
unfolding sum_refunds
created-IsCovered rs r p w g fits c = elim (Bool-cases (r.payment_id == p.id)) [
  | inl own ↦
      let within = fits (ground arith) in rw (w, g, own, sum_refunds) (omega arith, omega arith)
  | inr other ↦ rw (w, g, other, sum_refunds) (omega (arith, c.0), omega (arith, c.1))
]

create_refund-IsSound :
    (s : Store) (input : ReserveRefundInput) (payment : PaymentRow) (cents : ℕ)
    → IsSound s
    → In payment s.payments
    → payment.refunded_amount_cents + sum_refunds is_pending payment.id s.refunds + cents
      ≤ payment.amount_cents
    → IsSound (create_refund s input payment cents)
unfolding create_refund
create_refund-IsSound s input payment cents v i fits = record {
  fresh = (omega arith, Fresh-mono s.next_id (s.next_id + 2) s.refunds (omega arith) v.fresh);
  distinct = (Fresh-find s.next_id s.refunds v.fresh, v.distinct);
  payments_distinct = v.payments_distinct;
  covered =
      let here = find_payment-In s.payments payment v.payments_distinct i in
      IsCovered-change s.refunds (create_refund s input payment cents).refunds payment.id s.payments
        (λ q n c. created-IsCovered s.refunds _ q refl refl (λ e. ground arith) c)
        (λ q f c.
          let same : payment ≡ q = ground arith in
          created-IsCovered s.refunds _ q refl refl (λ e. rw (← same) fits) c)
        v.payments_distinct v.covered;
}

pub reserve_in_transaction-IsSound :
    (s : Store) (input : ReserveRefundInput) (r : RefundReservationResult × Store)
    → IsSound s
    → reserve_in_transaction s input ≡ ok r
    → IsSound r.1
unfolding create_refund
reserve_in_transaction-IsSound s input r v h = elim (reserve_in_transaction-Reserves s input r h) [
  | nothing _ e ↦ subst IsSound (sym e) v
  | reserves payment cents i _ some_cents fits _ _ e ↦
      subst IsSound (sym e) (create_refund-IsSound s input payment cents v i fits)
]

pub request-IsSound :
    (s : Store) (booking_id : ℕ) (amount : ℤ) (r : ℕ × Store)
    → IsSound s
    → request s booking_id amount ≡ ok r
    → IsSound r.1
unfolding request
request-IsSound s booking_id amount r v h =
    let input : ReserveRefundInput = record {
      booking_id = booking_id;
      amount = additional amount;
      lenient = false;
    } in
    elim (Chain-of (reserve_in_transaction s input) _ h) [
      | chain reserved a b ↦ elim (Option-cases reserved.0.refund_id) [
        | inl e ↦ ground (arith, rw e at b)
        | inr (id, e) ↦
            subst IsSound (ap (λ x. x.1) (ok_injective (rw e at b)))
              (reserve_in_transaction-IsSound s input reserved v a)
      ]
    ]

pub record_answer-IsSound :
    (seen s : Store) (now id : ℕ) (answer : ProviderAnswer) (r : ExecuteOutcome × Store)
    → Extends seen.refunds s.refunds
    → IsSound s
    → record_answer seen s now id answer ≡ ok r
    → IsSound r.1
unfolding record_answer
record_answer-IsSound seen s now id (answered value stripe_id) r x v h =
    elim (Chain-of
      (apply_settlement seen s now (record {
        refund_id = id;
        status = provider_status value;
        stripe_refund_id = some stripe_id;
      }))
      _ h) [
        | chain t a b ↦ subst IsSound (ap (λ x. x.1) (ok_injective b)) (
            apply_settlement-IsSound seen s now
              (record {
                refund_id = id;
                status = provider_status value;
                stripe_refund_id = some stripe_id;
              })
              t x v a)
      ]
record_answer-IsSound seen s now id rejected r x v h =
    elim (Chain-of
      (apply_settlement seen s now
        (record { refund_id = id; status = failed; stripe_refund_id = none }))
      _ h) [
        | chain t a b ↦ subst IsSound (ap (λ x. x.1) (ok_injective b)) (
            apply_settlement-IsSound seen s now
              (record { refund_id = id; status = failed; stripe_refund_id = none }) t x v a)
      ]
record_answer-IsSound seen s now id unreachable r x v h = cc

pub execute-IsSound :
    (provider : RefundCall → ProviderAnswer) (s : Store) (now id : ℕ) (r : ExecuteOutcome × Store)
    → IsSound s
    → execute provider s now id ≡ ok r
    → IsSound r.1
unfolding execute
execute-IsSound provider s now id r v h = elim (Option-cases (find_refund id s.refunds)) [
  | inl e ↦ ground (arith, rw (e, execute) at h)
  | inr (row, e) ↦ elim (Bool-cases (is_pending row.status)) [
    | inr w ↦ subst IsSound (ap (λ x. x.1) (ok_injective (rw (e, w, execute) at h))) v
    | inl w ↦ elim (Option-cases (find_payment row.payment_id s.payments)) [
      | inl f ↦ ground (arith, rw (e, w, execute, f) at h)
      | inr (p, f) ↦ elim (Option-cases p.charge_id) [
        | inl g ↦
            record_answer-IsSound s s now id rejected r as_read v (rw (e, w, execute, f, g) at h)
        | inr (charge, g) ↦
            record_answer-IsSound s s now id _ r as_read v (rw (e, w, execute, f, g) at h)
      ]
    ]
  ]
]

pub apply_provider_update-IsSound :
    (seen s : Store) (now stripe_id : ℕ) (key : Option ℕ) (value : RefundStatusValue) (t : Store)
    → Extends seen.refunds s.refunds
    → IsSound s
    → apply_provider_update seen s now stripe_id key value ≡ ok t
    → IsSound t
unfolding apply_provider_update
apply_provider_update-IsSound seen s now stripe_id key value t x v h =
    elim (Option-cases (
      find (λ r. is_some_num r.stripe_refund_id stripe_id || is_some_num key r.idempotency_key)
        seen.refunds)) [
          | inl e ↦ subst IsSound (ok_injective (rw (e, apply_provider_update) at h)) v
          | inr (r, e) ↦
              apply_settlement-IsSound seen s now
                (record {
                  refund_id = r.id;
                  status = provider_status value;
                  stripe_refund_id = some stripe_id;
                })
                t x v (rw (e, apply_provider_update) at h)
        ]
