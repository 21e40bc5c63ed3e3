-- ===== src/Refund/Ledger.antt =====
-- What a sound ledger is: of every payment, what has gone back and what is on its way stays within
-- the charge.
use shape_and_flow.Base.{
  ℕ, ◌+◌, ◌≤◌, ◌≡◌, ◌≢◌, subst, inl, inr, none, some, List, [], ◌∷◌, arith, All, ◌==◌, Bool-cases,
}
use shape_and_flow.Refund.Store.{
  PaymentRow, RefundRow, find_payment, sum_refunds, is_pending, is_succeeded, Store,
}
use shape_and_flow.Refund.Sums.{DistinctRefunds, Fresh}

-- The payment's total is the sum of its settled refunds, which with the open ones stays within it.
abbrev pub IsCovered : List RefundRow → PaymentRow → Type 0
IsCovered rs p =
    (p.refunded_amount_cents ≡ sum_refunds is_succeeded p.id rs)
    × (sum_refunds is_succeeded p.id rs + sum_refunds is_pending p.id rs ≤ p.amount_cents)

-- No two payments have one id.
abbrev pub DistinctPayments : List PaymentRow → Type 0
DistinctPayments [] = Unit
DistinctPayments (p ∷ ps) = (find_payment p.id ps ≡ none) × DistinctPayments ps

pub record IsSound (s : Store) : Type 0 where
  pub fresh : Fresh s.next_id s.refunds
  pub distinct : DistinctRefunds s.refunds
  pub payments_distinct : DistinctPayments s.payments
  pub covered : All (IsCovered s.refunds) s.payments

-- Another set of refunds covers the payments too, if it does so for each that it concerns.
pub IsCovered-change :
    (rs ts : List RefundRow) (id : ℕ) (ps : List PaymentRow)
    → ((p : PaymentRow) → p.id ≢ id → IsCovered rs p → IsCovered ts p)
    → ((p : PaymentRow) → find_payment id ps ≡ some p → IsCovered rs p → IsCovered ts p)
    → DistinctPayments ps
    → All (IsCovered rs) ps
    → All (IsCovered ts) ps
IsCovered-change rs ts id [] other own d c = tt
IsCovered-change rs ts id (p ∷ ps) other own d c = elim (Bool-cases (p.id == id)) [
  | inl hit ↦
      let same : p.id ≡ id = ground arith in
      let gone : find_payment id ps ≡ none = subst (λ i. find_payment i ps ≡ none) same d.0 in
      (
        own p (ground arith) c.0,
        IsCovered-change rs ts id ps other (λ q h. own q (ground arith)) d.1 c.1,
      )
  | inr miss ↦ (
    other p (ground arith) c.0,
    IsCovered-change rs ts id ps other (λ q h. own q (ground arith)) d.1 c.1,
  )
]
