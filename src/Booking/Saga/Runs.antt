-- ===== src/Booking/Saga/Runs.antt =====
-- Any sequence of the saga's steps: jobs that are early, late or doubled, webhooks that are
-- delivered again, and answers of the provider that come while other steps are taken.
use shape_and_flow.Base.{
  ℕ, ◌≡◌, refl, ap, subst, List, [], ◌∷◌, Outcome, ok, err, ◌>>=◌, Chain-of, chain, ok_injective,
}
use shape_and_flow.Booking.Saga.{
  BookingStore, begin_expiry, release, confirm_once, mark_payment_failed, ConfirmPaidInput,
  CompleteExpiryOutcome, finish_expiry, ExpireResult, session_expired, session_unpaid, session_paid,
  account_of_session,
}
use shape_and_flow.Booking.Saga.Tidy.{IsTidy}
use shape_and_flow.Booking.Saga.Steps.{
  begin_expiry-IsTidy, release-IsTidy, confirm_once-IsTidy, mark_payment_failed-IsTidy,
}

-- The steps: the first phase of an expiry at a time, the second where there is no session, what
-- follows the provider's answer, a paid and a failed webhook.
pub data SagaStep : Type 0 where
  begins : ℕ → ℕ → SagaStep
  releases : ℕ → SagaStep
  finishes : ℕ → ℕ → ExpireResult → SagaStep
  confirms_paid : ConfirmPaidInput → SagaStep
  fails : ℕ → SagaStep

-- The store behind a call; one that throws has been rolled back.
abbrev resume {ℓ} : {A : Type ℓ} → (A → BookingStore) → BookingStore → Outcome A → BookingStore
resume store s (ok a) = store a
resume store s (err code) = s

unfoldable pub take_step : BookingStore → SagaStep → BookingStore
unfolding begin_expiry release finish_expiry confirm_once mark_payment_failed
take_step s (begins now id) = resume (λ r. r.1) s (begin_expiry s now id)
take_step s (releases id) = resume (λ t. t) s (release s id)
take_step s (finishes id session answer) = resume (λ r. r.1) s (finish_expiry s id session answer)
take_step s (confirms_paid input) = resume (λ r. r.1) s (confirm_once s input)
take_step s (fails id) = resume (λ t. t) s (mark_payment_failed s id)

unfoldable pub take_steps : BookingStore → List SagaStep → BookingStore
unfolding take_step
take_steps s [] = s
take_steps s (step ∷ steps) = take_steps (take_step s step) steps

resume-IsTidy :
    {A : Type 0} (store : A → BookingStore) (s : BookingStore) (o : Outcome A)
    → IsTidy s
    → ((a : A) → o ≡ ok a → IsTidy (store a))
    → IsTidy (resume store s o)
resume-IsTidy store s (ok a) v h = h a refl
resume-IsTidy store s (err code) v h = v

released-IsTidy :
    (s : BookingStore) (id : ℕ) (f : BookingStore → CompleteExpiryOutcome)
    (r : CompleteExpiryOutcome × BookingStore)
    → IsTidy s
    → (release s id >>= λ t. ok (f t, t)) ≡ ok r
    → IsTidy r.1
released-IsTidy s id f r v h = elim (Chain-of (release s id) _ h) [
  | chain t a b ↦ subst IsTidy (ap (λ x. x.1) (ok_injective b)) (release-IsTidy s id t v a)
]

finish_expiry-IsTidy :
    (s : BookingStore) (id session : ℕ) (answer : ExpireResult)
    (r : CompleteExpiryOutcome × BookingStore)
    → IsTidy s
    → finish_expiry s id session answer ≡ ok r
    → IsTidy r.1
unfolding finish_expiry
finish_expiry-IsTidy s id session session_expired r v h = released-IsTidy s id _ r v h
finish_expiry-IsTidy s id session session_unpaid r v h = released-IsTidy s id _ r v h
finish_expiry-IsTidy s id session (session_paid found) r v h =
    let input : ConfirmPaidInput = record {
      booking_id = id;
      session_id = session;
      account = account_of_session s session;
      charge_id = found.charge_id;
      amount_total_cents = found.amount_total_cents;
    } in
    elim (Chain-of (confirm_once s input) _ h) [
      | chain q a b ↦
          subst IsTidy (ap (λ x. x.1) (ok_injective b)) (confirm_once-IsTidy s input q v a)
    ]

take_step-IsTidy : (s : BookingStore) (step : SagaStep) → IsTidy s → IsTidy (take_step s step)
unfolding take_step
take_step-IsTidy s (begins now id) v =
    resume-IsTidy (λ r. r.1) s (begin_expiry s now id) v (λ r. begin_expiry-IsTidy s now id r v)
take_step-IsTidy s (releases id) v =
    resume-IsTidy (λ t. t) s (release s id) v (λ t. release-IsTidy s id t v)
take_step-IsTidy s (finishes id session answer) v =
    resume-IsTidy (λ r. r.1) s (finish_expiry s id session answer) v
      (λ r. finish_expiry-IsTidy s id session answer r v)
take_step-IsTidy s (confirms_paid input) v =
    resume-IsTidy (λ r. r.1) s (confirm_once s input) v (λ r. confirm_once-IsTidy s input r v)
take_step-IsTidy s (fails id) v =
    resume-IsTidy (λ t. t) s (mark_payment_failed s id) v (λ t. mark_payment_failed-IsTidy s id t v)

-- From tidy bookings, whatever expiry jobs, provider answers and webhooks come, in whatever order
-- and how often, the bookings are tidy again: a booking has a due time exactly while it waits for
-- its payment, it has no management token and no confirmation event until then and never a second
-- one, and every change of status in the history is a permitted one.
pub take_steps-IsTidy :
    (s : BookingStore) (steps : List SagaStep) → IsTidy s → IsTidy (take_steps s steps)
unfolding take_steps
take_steps-IsTidy s [] v = v
take_steps-IsTidy s (step ∷ steps) v =
    take_steps-IsTidy (take_step s step) steps (take_step-IsTidy s step v)
