-- ===== src/Booking/Saga.antt =====
-- booking-app/apps/api/src/booking/expiry.service.ts and booking-confirmation.service.ts: how a
-- booking that waits for its payment is confirmed, fails or expires. The tables are functions of
-- the key; of a row the columns are kept that are decided by or that tell the outcome. A
-- transaction locks the booking's row and is one step; the payment provider is asked between two
-- of them.
pub mod Tidy
pub mod Steps
pub mod Settled
pub mod Runs
use shape_and_flow.Base.{
  ℕ, ◌+◌, ◌*◌, Bool, true, false, not, Option, none, some, List, [], ◌∷◌, ltb, ◌==◌, ◌&&◌,
  if◌then◌else◌, Outcome, ok, err, not_found, ◌>>=◌, ◌>>◌,
}
use shape_and_flow.Booking.Status.{
  BookingStatus, pending_payment, expiring, confirmed, expired, payment_failed, same_status,
  is_terminal, assert_transition,
}
use shape_and_flow.Refund.Store.{PaymentStatus, pay_pending, pay_succeeded, pay_failed}

pub record BookingRecord : Type 0 where
  pub status : BookingStatus
  pub expires_at : Option ℕ
  pub price_cents : ℕ
  pub ends_at : ℕ
  pub session : Option ℕ

pub record SessionPayment : Type 0 where
  pub booking_id : ℕ
  pub status : PaymentStatus
  pub amount_cents : ℕ
  pub charge_id : Option ℕ
  pub account : Option ℕ

pub record ManagementToken : Type 0 where
  pub booking_id : ℕ
  pub expires_at : ℕ

pub record StatusChange : Type 0 where
  pub booking_id : ℕ
  pub from_status : BookingStatus
  pub to_status : BookingStatus

pub data BookingEvent : Type 0 where
  booking_expiry_requested booking_confirmed booking_payment_failed : ℕ → BookingEvent

-- `payments` by the id of the checkout session.
pub record BookingStore : Type 0 where
  pub bookings : ℕ → Option BookingRecord
  pub payments : ℕ → Option SessionPayment
  pub tokens : List ManagementToken
  pub history : List StatusChange
  pub outbox : List BookingEvent

abbrev pub put {ℓ} : {A : Type ℓ} → ℕ → A → (ℕ → Option A) → ℕ → Option A
put key row table k = if k == key then some row else table k

pub data BeginExpiryOutcome : Type 0 where
  began not_due not_begun : BeginExpiryOutcome

-- `expiresAt === null || expiresAt > now`.
abbrev pub is_not_due : Option ℕ → ℕ → Bool
is_not_due none now = true
is_not_due (some t) now = ltb now t

abbrev pub change : ℕ → BookingStatus → BookingStatus → StatusChange
change id from to = record { booking_id = id; from_status = from; to_status = to }

unfoldable pub begin_expiry : BookingStore → ℕ → ℕ → Outcome (BeginExpiryOutcome × BookingStore)
unfolding assert_transition
begin_expiry s now id = elim (s.bookings id) [
  | none ↦ ok (not_begun, s)
  | some b ↦
      if not (same_status b.status pending_payment)
      then ok (not_begun, s)
      else if is_not_due b.expires_at now
      then ok (not_due, s)
      else assert_transition (some b.status) expiring
        >> ok (
          began,
          record s {
            bookings = put id (record b { status = expiring }) s.bookings;
            history = change id b.status expiring ∷ s.history;
            outbox = booking_expiry_requested id ∷ s.outbox;
          },
        )
]

-- `release`: the slot is given back, unless the booking has moved on meanwhile.
unfoldable pub release : BookingStore → ℕ → Outcome BookingStore
unfolding assert_transition
release s id = elim (s.bookings id) [
  | none ↦ ok s
  | some b ↦
      if not (same_status b.status expiring)
      then ok s
      else assert_transition (some b.status) expired
        >> ok (record s {
          bookings = put id (record b { status = expired; expires_at = none }) s.bookings;
          history = change id b.status expired ∷ s.history;
        })
]

pub record ConfirmPaidInput : Type 0 where
  pub booking_id : ℕ
  pub session_id : ℕ
  pub account : Option ℕ
  pub charge_id : Option ℕ
  pub amount_total_cents : ℕ

pub data ConfirmOutcome : Type 0 where
  now_confirmed already_confirmed paid_after_terminal : ConfirmOutcome

abbrev pub or_kept {ℓ} : {A : Type ℓ} → Option A → Option A → Option A
or_kept (some a) kept = some a
or_kept none kept = kept

-- `upsertPayment`: a row that is there keeps its account.
unfoldable pub upsert_payment : ConfirmPaidInput → Option SessionPayment → SessionPayment
upsert_payment input none = record {
  booking_id = input.booking_id;
  status = pay_succeeded;
  amount_cents = input.amount_total_cents;
  charge_id = input.charge_id;
  account = input.account;
}
upsert_payment input (some p) = record p {
  status = pay_succeeded;
  amount_cents = input.amount_total_cents;
  charge_id = or_kept input.charge_id p.charge_id;
}

-- `MANAGEMENT_TOKEN_GRACE_DAYS`, in milliseconds.
abbrev pub grace_ms : ℕ
grace_ms = 14 * 86400000

unfoldable pub confirm_once :
    BookingStore → ConfirmPaidInput → Outcome (ConfirmOutcome × BookingStore)
unfolding assert_transition is_terminal upsert_payment
confirm_once s input = elim (s.bookings input.booking_id) [
  | none ↦ err not_found
  | some b ↦
      if same_status b.status confirmed
      then ok (already_confirmed, s)
      else if is_terminal b.status
      then ok (paid_after_terminal, s)
      else assert_transition (some b.status) confirmed
        >> ok (
          now_confirmed,
          record s {
            bookings =
                put input.booking_id
                  (record b {
                    status = confirmed;
                    expires_at = none;
                    session = some input.session_id;
                  })
                  s.bookings;
            payments =
                put input.session_id (upsert_payment input (s.payments input.session_id))
                  s.payments;
            tokens =
                record { booking_id = input.booking_id; expires_at = b.ends_at + grace_ms }
                ∷ s.tokens;
            history = change input.booking_id b.status confirmed ∷ s.history;
            outbox = booking_confirmed input.booking_id ∷ s.outbox;
          },
        )
]

abbrev pub is_pay_pending : PaymentStatus → Bool
is_pay_pending pay_pending = true
is_pay_pending _ = false

-- The `updateMany` of the payments of a booking that are still pending.
unfoldable pub fail_pending : ℕ → Option SessionPayment → Option SessionPayment
fail_pending id none = none
fail_pending id (some p) =
    some (
      if p.booking_id == id && is_pay_pending p.status then record p { status = pay_failed } else p)

unfoldable pub mark_payment_failed : BookingStore → ℕ → Outcome BookingStore
unfolding assert_transition fail_pending
mark_payment_failed s id = elim (s.bookings id) [
  | none ↦ ok s
  | some b ↦
      if not (same_status b.status pending_payment)
      then ok s
      else assert_transition (some b.status) payment_failed
        >> ok (record s {
          bookings = put id (record b { status = payment_failed; expires_at = none }) s.bookings;
          payments = λ session. fail_pending id (s.payments session);
          history = change id b.status payment_failed ∷ s.history;
          outbox = booking_payment_failed id ∷ s.outbox;
        })
]

pub data CompleteExpiryOutcome : Type 0 where
  did_expire did_confirm not_completed : CompleteExpiryOutcome

-- What `completeExpiry` finds to do, before the provider is asked.
pub data ExpiryPlan : Type 0 where
  finished : CompleteExpiryOutcome → ExpiryPlan
  release_directly : ExpiryPlan
  ask_about : ℕ → ExpiryPlan

unfoldable pub plan_expiry : BookingStore → ℕ → ExpiryPlan
plan_expiry s id = elim (s.bookings id) [
  | none ↦ finished not_completed
  | some b ↦
      if same_status b.status confirmed
      then finished did_confirm
      else if same_status b.status expired
      then finished did_expire
      else if not (same_status b.status expiring)
      then finished not_completed
      else elim b.session [ none ↦ release_directly | some session ↦ ask_about session ]
]

-- The provider's answers: the session is expired, or was complete and is paid or not, with what
-- `retrieveCheckoutSession` then tells.
pub record RetrievedSession : Type 0 where
  pub charge_id : Option ℕ
  pub amount_total_cents : ℕ

pub data ExpireResult : Type 0 where
  session_expired session_unpaid : ExpireResult
  session_paid : RetrievedSession → ExpireResult

-- `accountOfSession`.
unfoldable pub account_of_session : BookingStore → ℕ → Option ℕ
account_of_session s session = elim (s.payments session) [ none ↦ none | some p ↦ p.account ]

-- What follows the answer, on the store as it is then.
unfoldable pub finish_expiry :
    BookingStore → ℕ → ℕ → ExpireResult → Outcome (CompleteExpiryOutcome × BookingStore)
unfolding release confirm_once account_of_session
finish_expiry s id session session_expired = release s id >>= λ t. ok (did_expire, t)
finish_expiry s id session session_unpaid = release s id >>= λ t. ok (did_expire, t)
finish_expiry s id session (session_paid found) =
    confirm_once s (record {
      booking_id = id;
      session_id = session;
      account = account_of_session s session;
      charge_id = found.charge_id;
      amount_total_cents = found.amount_total_cents;
    })
    >>= λ r. ok (did_confirm, r.1)

-- `completeExpiry` where nothing else happens while the provider is asked; a throw of the provider
-- is passed on, and nothing is written.
unfoldable pub complete_expiry :
    (ℕ → Outcome ExpireResult) → BookingStore → ℕ → Outcome (CompleteExpiryOutcome × BookingStore)
unfolding plan_expiry finish_expiry
complete_expiry provider s id = elim (plan_expiry s id) [
  | finished outcome ↦ ok (outcome, s)
  | release_directly ↦ release s id >>= λ t. ok (did_expire, t)
  | ask_about session ↦ provider session >>= λ answer. finish_expiry s id session answer
]
