-- ===== src/Refund/Histories.antt =====
-- Any sequence of refund calls, some of which fail, and some of which settle a refund while
-- reservations commit. That two settlements are under way at once is left out: refund.service.ts
-- does not keep them apart, and the second would write a sum without the first.
use shape_and_flow.Base.{ℕ, ◌≡◌, refl, Option, List, [], ◌∷◌, Outcome, ok, err}
use shape_and_flow.Refund.Store.{RefundRow, Store}
use shape_and_flow.Base.Int.{ℤ}
use shape_and_flow.Refund.Service.{request, ReserveRefundInput, reserve_in_transaction}
use shape_and_flow.Refund.Settling.{
  execute, record_answer, apply_provider_update, ProviderAnswer, RefundCall, RefundStatusValue,
}
use shape_and_flow.Refund.Ledger.{IsSound}
use shape_and_flow.Refund.Overtaking.{Extends, as_read, reserve_in_transaction-Extends}
use shape_and_flow.Refund.Steps.{
  request-IsSound, reserve_in_transaction-IsSound, record_answer-IsSound, execute-IsSound,
  apply_provider_update-IsSound,
}

-- A call, the way it comes: a reservation by a cancellation or a reschedule, a request by the
-- office, a run of the refund job, the answer of a provider that was asked earlier, or a webhook of
-- the provider. The last two come with the reservations that commit between what the settlement
-- reads and its own commit.
pub data Call : Type 0 where
  reserve : ReserveRefundInput → Call
  asks_refund : ℕ → ℤ → Call
  run_job : (RefundCall → ProviderAnswer) → ℕ → ℕ → Call
  answer : List ReserveRefundInput → ℕ → ℕ → ProviderAnswer → Call
  webhook : List ReserveRefundInput → ℕ → ℕ → Option ℕ → RefundStatusValue → Call

abbrev pub after {ℓ} : {A : Type ℓ} → (A → Store) → Store → Outcome A → Store
after store s (ok a) = store a
after store s (err e) = s

unfoldable pub reserve_all : Store → List ReserveRefundInput → Store
unfolding reserve_in_transaction
reserve_all s [] = s
reserve_all s (input ∷ inputs) =
    reserve_all (after (λ r. r.1) s (reserve_in_transaction s input)) inputs

-- One call: a call that throws has rolled its transaction back.
unfoldable pub serve : Store → Call → Store
unfolding reserve_all reserve_in_transaction request execute record_answer apply_provider_update
serve s (reserve input) = after (λ r. r.1) s (reserve_in_transaction s input)
serve s (asks_refund booking_id amount) = after (λ r. r.1) s (request s booking_id amount)
serve s (run_job provider now id) = after (λ r. r.1) s (execute provider s now id)
serve s (answer others now id a) =
    let t = reserve_all s others in after (λ r. r.1) t (record_answer s t now id a)
serve s (webhook others now stripe_id key value) =
    let t = reserve_all s others in
    after (λ u. u) t (apply_provider_update s t now stripe_id key value)

unfoldable pub serve_all : Store → List Call → Store
unfolding serve
serve_all s [] = s
serve_all s (c ∷ cs) = serve_all (serve s c) cs

after-IsSound :
    {A : Type 0} (store : A → Store) (s : Store) (o : Outcome A)
    → IsSound s
    → ((a : A) → o ≡ ok a → IsSound (store a))
    → IsSound (after store s o)
after-IsSound store s (ok a) v h = h a refl
after-IsSound store s (err e) v h = v

after-Extends :
    {A : Type 0} (rs : List RefundRow) (s : Store) (o : Outcome (A × Store))
    → Extends rs s.refunds
    → ((a : A × Store) → o ≡ ok a → Extends rs a.1.refunds)
    → Extends rs (after (λ r. r.1) s o).refunds
after-Extends rs s (ok a) x h = h a refl
after-Extends rs s (err e) x h = x

-- The ledger stays sound while reservations commit, and keeps what a settlement has read.
reserve_all-IsSound :
    (rs : List RefundRow) (s : Store) (inputs : List ReserveRefundInput)
    → IsSound s
    → Extends rs s.refunds
    → IsSound (reserve_all s inputs) × Extends rs (reserve_all s inputs).refunds
unfolding reserve_all
reserve_all-IsSound rs s [] v x = (v, x)
reserve_all-IsSound rs s (input ∷ inputs) v x =
    reserve_all-IsSound rs (after (λ r. r.1) s (reserve_in_transaction s input)) inputs
      (after-IsSound (λ r. r.1) s (reserve_in_transaction s input) v
        (λ r h. reserve_in_transaction-IsSound s input r v h))
      (after-Extends rs s (reserve_in_transaction s input) x
        (λ r h. reserve_in_transaction-Extends rs s input r v h x))

pub serve-IsSound : (s : Store) (c : Call) → IsSound s → IsSound (serve s c)
unfolding serve
serve-IsSound s (reserve input) v =
    after-IsSound (λ r. r.1) s (reserve_in_transaction s input) v
      (λ r h. reserve_in_transaction-IsSound s input r v h)
serve-IsSound s (asks_refund booking_id amount) v =
    after-IsSound (λ r. r.1) s (request s booking_id amount) v
      (λ r h. request-IsSound s booking_id amount r v h)
serve-IsSound s (run_job provider now id) v =
    after-IsSound (λ r. r.1) s (execute provider s now id) v
      (λ r h. execute-IsSound provider s now id r v h)
serve-IsSound s (answer others now id a) v =
    let t = reserve_all s others in
    let (w, x) = reserve_all-IsSound s.refunds s others v as_read in
    after-IsSound (λ r. r.1) t (record_answer s t now id a) w
      (λ r h. record_answer-IsSound s t now id a r x w h)
serve-IsSound s (webhook others now stripe_id key value) v =
    let t = reserve_all s others in
    let (w, x) = reserve_all-IsSound s.refunds s others v as_read in
    after-IsSound (λ u. u) t (apply_provider_update s t now stripe_id key value) w
      (λ u h. apply_provider_update-IsSound s t now stripe_id key value u x w h)

-- From a sound ledger, whatever reservations, jobs, provider answers and webhooks come, in
-- whatever order, with whatever reservations that commit while an answer or a webhook is being
-- written, and whichever of them throw, the ledger is sound again, as long as no two settlements
-- are under way at once: of each payment, the total that has gone back is the sum of its settled
-- refunds, and with the open ones it stays within the charge.
pub serve_all-IsSound : (s : Store) (cs : List Call) → IsSound s → IsSound (serve_all s cs)
unfolding serve_all
serve_all-IsSound s [] v = v
serve_all-IsSound s (c ∷ cs) v = serve_all-IsSound (serve s c) cs (serve-IsSound s c v)
