-- ===== src/Examples/Refunds.antt =====
-- A booking paid in full, of which part is given back, and the money's way.
use shape_and_flow.Base.{
  ℕ, ◌≡◌, refl, true, false, none, some, List, [], ◌∷◌, map, Outcome, ok, err, ◌>>=◌, arith,
}
use shape_and_flow.Base.Int.{pos}
use shape_and_flow.Refund.Store.{
  Store, PaymentRow, RefundRow, refund_requested, pay_succeeded, pending, succeeded, failed,
  sum_refunds,
}
use shape_and_flow.Refund.Service.{
  ReserveRefundInput, RefundReservationResult, additional, cumulative_target,
  reserve_in_transaction,
}
use shape_and_flow.Refund.Settling.{
  Settlement, apply_settlement, answered, says_succeeded, says_failed,
}
use shape_and_flow.Refund.Ledger.{IsSound}
use shape_and_flow.Refund.Reserve.{Reserves, reserve_in_transaction-Reserves}
use shape_and_flow.Refund.Settle.{settled_store, apply_settlement-final}
use shape_and_flow.Refund.Histories.{
  Call, reserve, run_job, asks_refund, answer, webhook, serve_all, serve_all-IsSound,
}

abbrev pub payment : PaymentRow
payment = record {
  id = 2;
  booking_id = 1;
  amount_cents = 5000;
  refunded_amount_cents = 0;
  currency = b'E' ∷ b'U' ∷ b'R' ∷ [];
  status = pay_succeeded;
  charge_id = some 900;
}

abbrev pub paid_store : Store
paid_store = record {
  bookings = record { id = 1; financial_root = none } ∷ [];
  payments = payment ∷ [];
  refunds = [];
  outbox = [];
  next_id = 3;
}

pub paid_store-IsSound : IsSound paid_store
unfolding sum_refunds
paid_store-IsSound = record {
  fresh = tt;
  distinct = tt;
  payments_distinct = (refl, tt);
  covered = ((refl, omega arith), tt);
}

abbrev first_part : ReserveRefundInput
first_part = record { booking_id = 1; amount = additional (pos 2000); lenient = false }

abbrev history : List Call
history =
    reserve first_part
    ∷ reserve (record { booking_id = 1; amount = cumulative_target (pos 4000); lenient = true })
    ∷ asks_refund 1 (pos 500)
    ∷ run_job (λ call. answered says_succeeded call.idempotency_key) 50 3
    ∷ webhook (first_part ∷ []) 70 6 none says_failed
    ∷ answer [] 80 5 (answered says_failed 6)
    ∷ []

serve_all-IsSound_example : IsSound (serve_all paid_store history)
serve_all-IsSound_example = serve_all-IsSound paid_store history paid_store-IsSound

abbrev created_row : RefundRow
created_row = record {
  id = 3;
  booking_id = 1;
  payment_id = 2;
  amount_cents = 2000;
  status = pending;
  idempotency_key = 4;
  stripe_refund_id = none;
  settled_at = none;
}

abbrev reserved_store : Store
reserved_store = record paid_store {
  refunds = created_row ∷ [];
  outbox = refund_requested 3 ∷ [];
  next_id = 5;
}

abbrev reserved_result : RefundReservationResult
reserved_result = record {
  refund_id = some 3;
  additional_amount_cents = pos 2000;
  refundable_amount_cents = pos 5000;
}

reserve_run : reserve_in_transaction paid_store first_part ≡ ok (reserved_result, reserved_store)
unfolding reserve_in_transaction
reserve_run = refl

reserve_in_transaction-Reserves_example :
    Reserves paid_store first_part reserved_result reserved_store
reserve_in_transaction-Reserves_example =
    reserve_in_transaction-Reserves paid_store first_part (reserved_result, reserved_store)
      reserve_run

abbrev paid_back : Settlement
paid_back = record { refund_id = 3; status = succeeded; stripe_refund_id = some 7 }

abbrev failed_later : Settlement
failed_later = record { refund_id = 3; status = failed; stripe_refund_id = none }

abbrev settled : Store
settled = settled_store reserved_store reserved_store 50 paid_back created_row payment

settle_run : apply_settlement reserved_store reserved_store 50 paid_back ≡ ok settled
unfolding apply_settlement
settle_run = refl

-- What another reservation has made of it by then.
abbrev overtaken : Store
overtaken = record settled {
  refunds = record created_row { id = 5 } ∷ settled.refunds;
  next_id = 7;
}

apply_settlement-final_example : apply_settlement settled overtaken 90 failed_later ≡ ok overtaken
apply_settlement-final_example =
    apply_settlement-final reserved_store reserved_store overtaken 50 90 paid_back failed_later
      settled refl refl refl settle_run

-- Two settlements of one payment, both of which read before either commits: the payment ends with
-- the second one's sum alone. One after the other they are both counted.
abbrev other_row : RefundRow
other_row = record created_row { id = 5; amount_cents = 3000; idempotency_key = 6 }

abbrev two_open : Store
two_open = record paid_store { refunds = other_row ∷ created_row ∷ []; next_id = 7 }

abbrev other_back : Settlement
other_back = record { refund_id = 5; status = succeeded; stripe_refund_id = some 8 }

abbrev cents_back : Outcome Store → List ℕ
cents_back (ok s) = map (λ p. p.refunded_amount_cents) s.payments
cents_back (err e) = []

lost_run :
    cents_back (
      apply_settlement two_open two_open 50 paid_back >>= λ t.
      apply_settlement two_open t 51 other_back)
    ≡ 3000 ∷ []
unfolding apply_settlement
lost_run = refl

kept_run :
    cents_back
      (apply_settlement two_open two_open 50 paid_back >>= λ t. apply_settlement t t 51 other_back)
    ≡ 5000 ∷ []
unfolding apply_settlement
kept_run = refl
