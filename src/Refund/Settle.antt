-- ===== src/Refund/Settle.antt =====
-- Settling a refund: the first settlement is the last, and the ledger stays sound.
use shape_and_flow.Base.{
  ℕ, ◌+◌, ◌≤◌, ◌≡◌, refl, sym, ap, ◌∙◌, subst, inl, inr, true, false, some, ◌∷◌, arith, All,
  if◌then◌else◌, Bool-cases, Option-cases, ok, ok_injective,
}
use shape_and_flow.Refund.Store.{
  PaymentRow, RefundRow, find_refund, find_payment, sum_refunds, update_refund, update_payment,
  is_pending, is_succeeded, Store, refund_succeeded,
}
use shape_and_flow.Refund.Settling.{
  Settlement, settle_row, recompute_payment_totals, apply_settlement, payment_status_for,
}
use shape_and_flow.Refund.Sums.{update_refund-Fresh, update_refund-DistinctRefunds}
use shape_and_flow.Refund.Covered.{
  IsCovered-update, sum_refunds-other, sum_refunds-settle, update_payment-DistinctPayments,
  find_refund-settled,
}
use shape_and_flow.Refund.Ledger.{IsCovered, IsSound}
use shape_and_flow.Refund.Overtaking.{Extends, Extends-find, Extends-sum}

-- The store once the refund and the payment that it is of are settled.
abbrev pub settled_store : Store → Store → ℕ → Settlement → RefundRow → PaymentRow → Store
settled_store seen s now input r p =
    let rs = update_refund input.refund_id (settle_row now input) s.refunds in
    let back =
      sum_refunds is_succeeded r.payment_id
        (update_refund input.refund_id (settle_row now input) seen.refunds) in
    record s {
      refunds = rs;
      payments =
          update_payment r.payment_id
            (λ q. record q {
              refunded_amount_cents = back;
              status = payment_status_for p.amount_cents back p.status;
            })
            s.payments;
      outbox = if is_succeeded input.status then refund_succeeded r.id ∷ s.outbox else s.outbox;
    }

-- What a settlement does that returns: nothing to a refund that is missing or no longer open, else
-- the row is settled and the payment's totals are computed again.
pub data Settles (seen s : Store) (now : ℕ) (input : Settlement) (t : Store) : Type 0 where
  ignored :
      ((r : RefundRow)
        → find_refund input.refund_id seen.refunds ≡ some r
        → is_pending r.status ≡ false)
      → t ≡ s
      → Settles seen s now input t
  settles :
      (r : RefundRow) (p : PaymentRow)
      → find_refund input.refund_id seen.refunds ≡ some r
      → is_pending r.status ≡ true
      → find_payment r.payment_id seen.payments ≡ some p
      → t ≡ settled_store seen s now input r p
      → Settles seen s now input t

pub apply_settlement-Settles :
    (seen s : Store) (now : ℕ) (input : Settlement) (t : Store)
    → apply_settlement seen s now input ≡ ok t
    → Settles seen s now input t
unfolding apply_settlement recompute_payment_totals
apply_settlement-Settles seen s now input t h =
    elim (Option-cases (find_refund input.refund_id seen.refunds)) [
      | inl e ↦
          ignored (λ r f. ground (arith, e, f)) (sym (ok_injective (rw (e, apply_settlement) at h)))
      | inr (r, e) ↦ elim (Bool-cases (is_pending r.status)) [
        | inl w ↦ elim (Option-cases (find_payment r.payment_id seen.payments)) [
          | inl f ↦ ground (arith, rw (e, w, apply_settlement, recompute_payment_totals, f) at h)
          | inr (p, f) ↦
              settles r p e w f
                (sym (ok_injective (rw (e, w, apply_settlement, recompute_payment_totals, f) at h)))
        ]
        | inr w ↦
            ignored (λ q f. ground (arith, e, f, w))
              (sym (ok_injective (rw (e, w, apply_settlement) at h)))
      ]
    ]

settle-IsCovered :
    (seen s : Store) (now : ℕ) (input : Settlement) (r : RefundRow) (p : PaymentRow)
    → IsSound s
    → ((payment : ℕ)
        → sum_refunds is_succeeded payment
            (update_refund input.refund_id (settle_row now input) seen.refunds)
          ≡ sum_refunds is_succeeded payment
              (update_refund input.refund_id (settle_row now input) s.refunds))
    → find_refund input.refund_id s.refunds ≡ some r
    → is_pending r.status ≡ true
    → All
        (IsCovered (settled_store seen s now input r p).refunds)
        (settled_store seen s now input r p).payments
settle-IsCovered seen s now input r p v same h w =
    IsCovered-update s.refunds (settled_store seen s now input r p).refunds r.payment_id _
      s.payments
      (λ q n c.
        let won = sum_refunds-other is_succeeded q.id now input s.refunds r h v.distinct n in
        let waits = sum_refunds-other is_pending q.id now input s.refunds r h v.distinct n in
        rw (won, waits) c)
      (λ q e c.
        let within : sum_refunds is_succeeded r.payment_id s.refunds
              + sum_refunds is_pending r.payment_id s.refunds
            ≤ q.amount_cents =
          subst
            (λ i.
              sum_refunds is_succeeded i s.refunds + sum_refunds is_pending i s.refunds
              ≤ q.amount_cents)
            e c.1 in
        let less = sum_refunds-settle now input s.refunds r h w v.distinct in
        rw e (same r.payment_id, omega arith))
      v.covered

-- A settlement, at any time, of any status, of any refund, leaves a sound ledger sound, if nothing but
-- reservations has come between what it has read and its commit.
pub apply_settlement-IsSound :
    (seen s : Store) (now : ℕ) (input : Settlement) (t : Store)
    → Extends seen.refunds s.refunds
    → IsSound s
    → apply_settlement seen s now input ≡ ok t
    → IsSound t
unfolding settle_row
apply_settlement-IsSound seen s now input t x v h =
    elim (apply_settlement-Settles seen s now input t h) [
      | ignored _ e ↦ subst IsSound (sym e) v
      | settles r p found w f e ↦ subst IsSound (sym e) (record {
        fresh =
            update_refund-Fresh s.next_id input.refund_id (settle_row now input) s.refunds
              (λ _. refl) v.fresh;
        distinct =
            update_refund-DistinctRefunds input.refund_id (settle_row now input) s.refunds
              (λ _. refl) v.distinct;
        payments_distinct =
            update_payment-DistinctPayments r.payment_id _ s.payments (λ _. refl)
              v.payments_distinct;
        covered =
            settle-IsCovered seen s now input r p v
              (λ payment.
                Extends-sum seen.refunds s.refunds input.refund_id payment (settle_row now input) r
                  x found)
              (Extends-find seen.refunds s.refunds input.refund_id r x found) w;
      })
    ]

-- A refund that is not open is left alone.
apply_settlement-closed :
    (seen s : Store) (now : ℕ) (input : Settlement)
    → ((r : RefundRow)
        → find_refund input.refund_id seen.refunds ≡ some r
        → is_pending r.status ≡ false)
    → apply_settlement seen s now input ≡ ok s
unfolding apply_settlement
apply_settlement-closed seen s now input h =
    elim (Option-cases (find_refund input.refund_id seen.refunds)) [
      | inl e ↦ rw (e, apply_settlement) refl
      | inr (r, e) ↦ rw (e, h r e, apply_settlement) refl
    ]

-- The first settlement is the last: once a refund is settled to a status that is not open, a later
-- settlement of it, one that reads what the first one left, writes nothing, whatever has been written
-- by then. While the first was under way its lock kept the refund's row as it was.
pub apply_settlement-final :
    (seen s u : Store) (now later : ℕ) (first second : Settlement) (t : Store)
    → find_refund first.refund_id seen.refunds ≡ find_refund first.refund_id s.refunds
    → first.refund_id ≡ second.refund_id
    → is_pending first.status ≡ false
    → apply_settlement seen s now first ≡ ok t
    → apply_settlement t u later second ≡ ok u
unfolding settle_row
apply_settlement-final seen s u now later first second t locked same closed h =
    apply_settlement-closed t u later second (λ q f.
      elim (apply_settlement-Settles seen s now first t h) [
        | ignored old e ↦
            let there : find_refund first.refund_id t.refunds ≡ some q = rw same f in
            old q
              (locked ∙ ap (λ (x : Store). find_refund first.refund_id x.refunds) (sym e) ∙ there)
        | settles r p found w g e ↦
            let now_found =
              find_refund-settled first.refund_id (settle_row now first) s.refunds r (λ _. refl)
                (sym locked ∙ found) in
            let here : find_refund first.refund_id t.refunds ≡ some (settle_row now first r) =
              rw e now_found in
            let one : some (settle_row now first r) ≡ some q = sym here ∙ rw same f in
            ground (arith, one, closed)
      ])
