-- ===== src/Refund/Settling.antt =====
-- booking-app/apps/api/src/payment/refund.service.ts: execution, the provider's updates and
-- settlement. The provider's answer to a refund call is an argument.
use shape_and_flow.Base.{
  ℕ, Bool, false, ◌||◌, not, Option, none, some, ◌∷◌, leb, ◌==◌, if◌then◌else◌, find, Outcome, ok,
  err, not_found, internal_error, provider_error, ◌>>=◌,
}
use shape_and_flow.Refund.Store.{
  RefundStatus, pending, succeeded, failed, canceled, PaymentStatus, pay_succeeded, pay_failed,
  partially_refunded, refunded, is_pending, is_succeeded, RefundRow, refund_succeeded, Store,
  find_payment, find_refund, sum_refunds, update_refund, update_payment,
}

abbrev pub keeps_failed : PaymentStatus → PaymentStatus
keeps_failed pay_failed = pay_failed
keeps_failed _ = pay_succeeded

unfoldable pub payment_status_for : ℕ → ℕ → PaymentStatus → PaymentStatus
payment_status_for amount back current =
    if leb back 0
    then keeps_failed current
    else if leb amount back
    then refunded
    else partially_refunded

-- The payment and the sum are read without a lock, as they stand in the first store; the payment is
-- written to the second, the one at the commit.
unfoldable pub recompute_payment_totals : Store → Store → ℕ → Outcome Store
unfolding payment_status_for sum_refunds update_payment
recompute_payment_totals seen s id = elim (find_payment id seen.payments) [
  | none ↦ err internal_error
  | some p ↦
      let back = sum_refunds is_succeeded id seen.refunds in
      ok (record s {
        payments =
            update_payment id
              (λ q. record q {
                refunded_amount_cents = back;
                status = payment_status_for p.amount_cents back p.status;
              })
              s.payments;
      })
]

pub record Settlement : Type 0 where
  pub refund_id : ℕ
  pub status : RefundStatus
  pub stripe_refund_id : Option ℕ

abbrev pub or_else {ℓ} : {A : Type ℓ} → Option A → Option A → Option A
or_else (some a) b = some a
or_else none b = b

-- The `update` of the refund; `now` is written unless the refund stays open.
unfoldable pub settle_row : ℕ → Settlement → RefundRow → RefundRow
settle_row now input r = record r {
  status = input.status;
  stripe_refund_id = or_else input.stripe_refund_id r.stripe_refund_id;
  settled_at = if is_pending input.status then r.settled_at else some now;
}

-- Under ReadCommitted: `seen` is the store that the transaction reads, its own update of the refund
-- included, and `s` the store at its commit, to which other transactions may have written. The lock
-- is on the refund's row alone.
unfoldable pub apply_settlement : Store → Store → ℕ → Settlement → Outcome Store
unfolding settle_row recompute_payment_totals update_refund
apply_settlement seen s now input = elim (find_refund input.refund_id seen.refunds) [
  | none ↦ ok s
  | some r ↦
      if not (is_pending r.status)
      then ok s
      else (recompute_payment_totals
            (record seen {
              refunds = update_refund input.refund_id (settle_row now input) seen.refunds;
            })
            (record s { refunds = update_refund input.refund_id (settle_row now input) s.refunds })
            r.payment_id
          >>= λ t. ok (record t {
            outbox =
                if is_succeeded input.status then refund_succeeded r.id ∷ t.outbox else t.outbox;
          }))
]

-- The words of the provider, `RefundStatusValue`, and `PROVIDER_STATUS`.
pub data RefundStatusValue : Type 0 where
  says_succeeded says_pending says_failed says_canceled : RefundStatusValue

abbrev pub provider_status : RefundStatusValue → RefundStatus
provider_status says_succeeded = succeeded
provider_status says_pending = pending
provider_status says_failed = failed
provider_status says_canceled = canceled

-- What comes back of `createRefund`: an answer, a rejection, or an error worth a retry.
pub data ProviderAnswer : Type 0 where
  answered : RefundStatusValue → ℕ → ProviderAnswer
  rejected unreachable : ProviderAnswer

pub record RefundCall : Type 0 where
  pub charge_id : ℕ
  pub amount_cents : ℕ
  pub idempotency_key : ℕ

pub data ExecuteOutcome : Type 0 where
  exec_succeeded exec_failed : ExecuteOutcome

-- What `execute` does once the provider has answered.
unfoldable pub record_answer :
    Store → Store → ℕ → ℕ → ProviderAnswer → Outcome (ExecuteOutcome × Store)
unfolding apply_settlement
record_answer seen s now id (answered value stripe_id) =
    apply_settlement seen s now
      (record { refund_id = id; status = provider_status value; stripe_refund_id = some stripe_id })
    >>= λ t. ok (if is_succeeded (provider_status value) then exec_succeeded else exec_failed, t)
record_answer seen s now id rejected =
    apply_settlement seen s now
      (record { refund_id = id; status = failed; stripe_refund_id = none })
    >>= λ t. ok (exec_failed, t)
record_answer seen s now id unreachable = err provider_error

-- `execute` where nothing else happens while the provider is asked and its answer is written.
unfoldable pub execute :
    (RefundCall → ProviderAnswer) → Store → ℕ → ℕ → Outcome (ExecuteOutcome × Store)
unfolding record_answer
execute provider s now id = elim (find_refund id s.refunds) [
  | none ↦ err not_found
  | some r ↦
      if not (is_pending r.status)
      then ok (if is_succeeded r.status then exec_succeeded else exec_failed, s)
      else elim (find_payment r.payment_id s.payments) [
        | none ↦ err internal_error
        | some p ↦ elim p.charge_id [
          | none ↦ record_answer s s now id rejected
          | some charge ↦ record_answer s s now id (
              provider (record {
                charge_id = charge;
                amount_cents = r.amount_cents;
                idempotency_key = r.idempotency_key;
              }))
        ]
      ]
]

abbrev pub is_some_num : Option ℕ → ℕ → Bool
is_some_num none n = false
is_some_num (some m) n = m == n

unfoldable pub apply_provider_update :
    Store → Store → ℕ → ℕ → Option ℕ → RefundStatusValue → Outcome Store
unfolding apply_settlement
apply_provider_update seen s now stripe_id key value =
    elim (find (λ r. is_some_num r.stripe_refund_id stripe_id || is_some_num key r.idempotency_key)
      seen.refunds) [
        | none ↦ ok s
        | some r ↦ apply_settlement seen s now (record {
          refund_id = r.id;
          status = provider_status value;
          stripe_refund_id = some stripe_id;
        })
      ]
