-- ===== src/Booking/Saga/Settled.antt =====
-- What the saga comes to: a booking is confirmed once, and one that is expiring is settled as soon
-- as the provider has answered.
use shape_and_flow.Base.{
  ℕ, ◌≡◌, ◌≢◌, refl, sym, ap, ◌∙◌, true, ◌==◌, Option, none, some, arith, Bool-cases, Option-cases,
  Outcome, ok, ok_injective, inl, inr,
}
use shape_and_flow.Booking.Status.{
  BookingStatus, expiring, confirmed, expired, same_status, is_terminal, assert_transition,
}
use shape_and_flow.Booking.Saga.{
  BookingStore, BookingRecord, release, confirm_once, ConfirmPaidInput, ConfirmOutcome,
  already_confirmed, paid_after_terminal, CompleteExpiryOutcome, did_expire, did_confirm,
  not_completed, finish_expiry, complete_expiry, plan_expiry, ExpireResult, session_expired,
  session_unpaid, session_paid, account_of_session, put,
}
use shape_and_flow.Booking.Saga.Steps.{confirmable, same_status-eq}

-- The booking is there, with the status.
pub record Stands (t : BookingStore) (id : ℕ) (status : BookingStatus) : Type 0 where
  pub row : BookingRecord
  pub found : t.bookings id ≡ some row
  pub status_eq : row.status ≡ status

Stands-put :
    (t : BookingStore) (table : ℕ → Option BookingRecord) (id : ℕ) (b : BookingRecord)
    → t.bookings ≡ put id b table
    → Stands t id b.status
Stands-put t table id b e = record {
  row = b;
  found = let here : (id == id) ≡ true = ground arith in ap (λ f. f id) e ∙ rw here refl;
  status_eq = refl;
}

-- A confirmation that returns leaves the booking confirmed, unless it was over before.
confirm_once-Stands :
    (s : BookingStore) (input : ConfirmPaidInput) (r : ConfirmOutcome × BookingStore)
    → confirm_once s input ≡ ok r
    → r.0 ≢ paid_after_terminal
    → Stands r.1 input.booking_id confirmed
unfolding confirm_once assert_transition
confirm_once-Stands s input r h n = elim (Option-cases (s.bookings input.booking_id)) [
  | inl e ↦ ground (arith, rw (e, confirm_once) at h)
  | inr (b, e) ↦ elim (Bool-cases (same_status b.status confirmed)) [
    | inl w ↦
        let done = ok_injective (rw (e, w, confirm_once) at h) in
        record {
          row = b;
          found = ap (λ x. x.1.bookings input.booking_id) (sym done) ∙ e;
          status_eq = same_status-eq b.status confirmed w;
        }
    | inr w ↦ elim (Bool-cases (is_terminal b.status)) [
      | inl f ↦ absurd (n (ap (λ x. x.0) (sym (ok_injective (rw (e, w, confirm_once, f) at h)))))
      | inr f ↦
          let (_, may) = confirmable b.status w f in
          let done = ok_injective (rw (e, w, confirm_once, f, assert_transition, may) at h) in
          Stands-put r.1 s.bookings input.booking_id _ (ap (λ x. x.1.bookings) (sym done))
    ]
  ]
]

-- Once a call has confirmed a booking, or found it confirmed, any later call for that booking finds
-- it confirmed and changes nothing.
pub confirm_once-again :
    (s : BookingStore) (first second : ConfirmPaidInput) (r : ConfirmOutcome × BookingStore)
    → first.booking_id ≡ second.booking_id
    → confirm_once s first ≡ ok r
    → r.0 ≢ paid_after_terminal
    → confirm_once r.1 second ≡ ok (already_confirmed, r.1)
unfolding confirm_once
confirm_once-again s first second r same h n =
    let there = confirm_once-Stands s first r h n in
    let found : r.1.bookings second.booking_id ≡ some there.row = rw same at there.found in
    let sure : same_status there.row.status confirmed ≡ true = rw there.status_eq refl in
    rw (found, confirm_once, sure) refl

release-Stands :
    (s : BookingStore) (id : ℕ) (b : BookingRecord)
    → s.bookings id ≡ some b
    → b.status ≡ expiring
    → (t : BookingStore) × (release s id ≡ ok t) × Stands t id expired
unfolding release assert_transition
release-Stands s id b e p =
    rw (e, release, p)
      (_, refl, Stands-put _ s.bookings id (record b { status = expired; expires_at = none }) refl)

confirm_once-returns :
    (s : BookingStore) (input : ConfirmPaidInput) (b : BookingRecord)
    → s.bookings input.booking_id ≡ some b
    → b.status ≡ expiring
    → (r : ConfirmOutcome × BookingStore) × (confirm_once s input ≡ ok r)
      × Stands r.1 input.booking_id confirmed
unfolding confirm_once assert_transition is_terminal
confirm_once-returns s input b e p =
    rw (e, confirm_once, p)
      (
        _,
        refl,
        Stands-put _ s.bookings input.booking_id
            (record b { status = confirmed; expires_at = none; session = some input.session_id })
            refl,
      )

-- The status that goes with what the second phase answers.
abbrev pub settled_status : CompleteExpiryOutcome → BookingStatus
settled_status did_expire = expired
settled_status did_confirm = confirmed
settled_status not_completed = expiring

pub finish_expiry-Stands :
    (s : BookingStore) (id session : ℕ) (answer : ExpireResult) (b : BookingRecord)
    → s.bookings id ≡ some b
    → b.status ≡ expiring
    → (r : CompleteExpiryOutcome × BookingStore) × (finish_expiry s id session answer ≡ ok r)
      × (r.0 ≢ not_completed)
      × Stands r.1 id (settled_status r.0)
unfolding finish_expiry
finish_expiry-Stands s id session session_expired b e p =
    let (t, h, k) = release-Stands s id b e p in
    ((did_expire, t), rw (h, finish_expiry) refl, ground arith, k)
finish_expiry-Stands s id session session_unpaid b e p =
    let (t, h, k) = release-Stands s id b e p in
    ((did_expire, t), rw (h, finish_expiry) refl, ground arith, k)
finish_expiry-Stands s id session (session_paid found) b e p =
    let (r, h, k) =
      confirm_once-returns s
        (record {
          booking_id = id;
          session_id = session;
          account = account_of_session s session;
          charge_id = found.charge_id;
          amount_total_cents = found.amount_total_cents;
        })
        b e p in
    ((did_confirm, r.1), rw (h, finish_expiry) refl, ground arith, k)

-- A booking that is expiring is settled by the second phase, whatever the provider answers, if it
-- answers about the booking's session: the phase returns, and the booking is expired or confirmed,
-- as the outcome says.
pub complete_expiry-Stands :
    (provider : ℕ → Outcome ExpireResult) (s : BookingStore) (id : ℕ) (b : BookingRecord)
    → s.bookings id ≡ some b
    → b.status ≡ expiring
    → ((session : ℕ)
        → b.session ≡ some session
        → (answer : ExpireResult) × (provider session ≡ ok answer))
    → (r : CompleteExpiryOutcome × BookingStore) × (complete_expiry provider s id ≡ ok r)
      × (r.0 ≢ not_completed)
      × Stands r.1 id (settled_status r.0)
unfolding complete_expiry plan_expiry
complete_expiry-Stands provider s id b e p asked = elim (Option-cases b.session) [
  | inl none_there ↦
      let (t, h, k) = release-Stands s id b e p in
      (
        (did_expire, t),
        rw (e, complete_expiry, plan_expiry, p, none_there, h) refl,
        ground arith,
        k,
      )
  | inr (session, there) ↦
      let (answer, ha) = asked session there in
      let (r, h, n, k) = finish_expiry-Stands s id session answer b e p in
      (r, rw (e, complete_expiry, plan_expiry, p, there, ha, h) refl, n, k)
]
