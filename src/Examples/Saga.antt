-- ===== src/Examples/Saga.antt =====
-- A booking that waits for its payment, and one whose time has run out.
use shape_and_flow.Base.{
  ℕ, ◌+◌, ◌≡◌, ◌≢◌, refl, subst, ◌==◌, none, some, [], ◌∷◌, arith, ok, Outcome, Bool-cases, inl,
  inr,
}
use shape_and_flow.Booking.Status.{
  pending_payment, expiring, confirmed, assert_transition, is_terminal,
}
use shape_and_flow.Refund.Store.{pay_pending}
use shape_and_flow.Booking.Saga.{
  BookingRecord, BookingStore, ConfirmPaidInput, now_confirmed, already_confirmed,
  CompleteExpiryOutcome, not_completed, put, change, booking_confirmed, confirm_once,
  complete_expiry, upsert_payment, ExpireResult, session_paid, session_expired, grace_ms,
}
use shape_and_flow.Booking.Saga.Tidy.{IsTidy, IsTidyRow}
use shape_and_flow.Booking.Saga.Settled.{
  Stands, settled_status, confirm_once-again, complete_expiry-Stands,
}
use shape_and_flow.Booking.Saga.Runs.{
  begins, releases, finishes, confirms_paid, fails, take_steps, take_steps-IsTidy,
}

abbrev waiting : BookingRecord
waiting = record {
  status = pending_payment;
  expires_at = some 100;
  price_cents = 5000;
  ends_at = 9000;
  session = some 7;
}

abbrev waiting_store : BookingStore
waiting_store = record {
  bookings = put 1 waiting (λ id. none);
  payments =
      put 7
        (record {
          booking_id = 1;
          status = pay_pending;
          amount_cents = 5000;
          charge_id = none;
          account = some 3;
        })
        (λ session. none);
  tokens = [];
  history = [];
  outbox = [];
}

waiting_row : IsTidyRow waiting_store 1 waiting
waiting_row = record { due = refl; one_token = omega arith; one_confirmation = omega arith }

waiting_store-IsTidy : IsTidy waiting_store
waiting_store-IsTidy = record {
  rows = λ k c h. elim (Bool-cases (k == 1)) [
    | inl hit ↦
        let same : waiting ≡ c = ground (arith, rw (hit) at h) in
        let key : 1 ≡ k = ground arith in
        subst (λ x. IsTidyRow waiting_store k x) same
          (subst (λ i. IsTidyRow waiting_store i waiting) key waiting_row)
    | inr miss ↦ ground (arith, rw (miss) at h)
  ];
  moves = tt;
}

abbrev paid : ConfirmPaidInput
paid = record {
  booking_id = 1;
  session_id = 7;
  account = none;
  charge_id = some 900;
  amount_total_cents = 5000;
}

take_steps-IsTidy_example : IsTidy (
    take_steps waiting_store (
      begins 50 1
      ∷ begins 150 1
      ∷ confirms_paid paid
      ∷ finishes 1 7 session_expired
      ∷ confirms_paid paid
      ∷ fails 1
      ∷ releases 1
      ∷ []))
take_steps-IsTidy_example = take_steps-IsTidy waiting_store _ waiting_store-IsTidy

abbrev confirmed_store : BookingStore
confirmed_store = record waiting_store {
  bookings =
      put 1 (record waiting { status = confirmed; expires_at = none; session = some 7 })
        waiting_store.bookings;
  payments = put 7 (upsert_payment paid (waiting_store.payments 7)) waiting_store.payments;
  tokens = record { booking_id = 1; expires_at = 9000 + grace_ms } ∷ [];
  history = change 1 pending_payment confirmed ∷ [];
  outbox = booking_confirmed 1 ∷ [];
}

confirm_run : confirm_once waiting_store paid ≡ ok (now_confirmed, confirmed_store)
unfolding confirm_once assert_transition is_terminal
confirm_run = refl

confirm_once-again_example :
    confirm_once confirmed_store paid ≡ ok (already_confirmed, confirmed_store)
confirm_once-again_example =
    confirm_once-again waiting_store paid paid (now_confirmed, confirmed_store) refl confirm_run
      (ground arith)

abbrev lapsed_store : BookingStore
lapsed_store = record waiting_store {
  bookings = put 1 (record waiting { status = expiring }) waiting_store.bookings;
}

abbrev answer : ExpireResult
answer = session_paid (record { charge_id = some 900; amount_total_cents = 5000 })

abbrev paid_meanwhile : ℕ → Outcome ExpireResult
paid_meanwhile session = ok answer

complete_expiry-Stands_example :
    (r : CompleteExpiryOutcome × BookingStore) × (complete_expiry paid_meanwhile lapsed_store 1
      ≡ ok r)
    × (r.0 ≢ not_completed)
    × Stands r.1 1 (settled_status r.0)
complete_expiry-Stands_example =
    complete_expiry-Stands paid_meanwhile lapsed_store 1 (record waiting { status = expiring }) refl
      refl (λ session h. (answer, refl))
