-- ===== src/Booking/Saga/Steps.antt =====
-- Each step of the saga leaves the bookings tidy.
use shape_and_flow.Base.{
  ℕ, ◌≡◌, refl, sym, ap, ◌∙◌, subst, true, false, none, some, arith, All, ◌==◌, Bool-cases,
  Option-cases, ok, ok_injective, inl, inr,
}
use shape_and_flow.Booking.Status.{
  BookingStatus, pending_payment, expiring, confirmed, expired, payment_failed, same_status,
  is_terminal, can_transition, assert_transition,
}
use shape_and_flow.Booking.Saga.{
  BookingStore, BookingRecord, put, begin_expiry, release, confirm_once, mark_payment_failed,
  ConfirmPaidInput, ConfirmOutcome, BeginExpiryOutcome, is_not_due,
}
use shape_and_flow.Booking.Saga.Tidy.{awaits, tokens_of, confirmations_of, IsTidyRow, IsTidy}

pub same_status-eq : (a b : BookingStatus) → same_status a b ≡ true → a ≡ b
same_status-eq a b h = ground arith

-- One booking is written; the others keep their tokens and confirmations.
put-IsTidy :
    (s t : BookingStore) (id : ℕ) (b : BookingRecord)
    → IsTidy s
    → t.bookings ≡ put id b s.bookings
    → IsTidyRow t id b
    → ((k : ℕ)
        → (k == id) ≡ false
        → (tokens_of k t.tokens ≡ tokens_of k s.tokens)
          × (confirmations_of k t.outbox ≡ confirmations_of k s.outbox))
    → All (λ c. can_transition (some c.from_status) c.to_status ≡ true) t.history
    → IsTidy t
put-IsTidy s t id b v e row other moves = record {
  rows = λ k c h.
      let found : put id b s.bookings k ≡ some c = ap (λ f. f k) (sym e) ∙ h in
      elim (Bool-cases (k == id)) [
        | inl hit ↦
            let same : b ≡ c = ground (arith, rw (hit) at found) in
            let key : k ≡ id = ground arith in
            subst (λ x. IsTidyRow t k x) same (subst (λ i. IsTidyRow t i b) (sym key) row)
        | inr miss ↦
            let old = v.rows k c (rw (miss) at found) in
            let (tk, cf) = other k miss in
            record {
              due = old.due;
              one_token = rw tk old.one_token;
              one_confirmation = rw cf old.one_confirmation;
            }
      ];
  moves = moves;
}

pub begin_expiry-IsTidy :
    (s : BookingStore) (now id : ℕ) (r : BeginExpiryOutcome × BookingStore)
    → IsTidy s
    → begin_expiry s now id ≡ ok r
    → IsTidy r.1
unfolding begin_expiry assert_transition
begin_expiry-IsTidy s now id r v h = elim (Option-cases (s.bookings id)) [
  | inl e ↦ subst IsTidy (ap (λ x. x.1) (ok_injective (rw (e, begin_expiry) at h))) v
  | inr (b, e) ↦ elim (Bool-cases (same_status b.status pending_payment)) [
    | inr w ↦ subst IsTidy (ap (λ x. x.1) (ok_injective (rw (e, w, begin_expiry) at h))) v
    | inl w ↦ elim (Bool-cases (is_not_due b.expires_at now)) [
      | inl f ↦ subst IsTidy (ap (λ x. x.1) (ok_injective (rw (e, w, begin_expiry, f) at h))) v
      | inr f ↦
          let p = same_status-eq b.status pending_payment w in
          let old = v.rows id b e in
          let waits : awaits b.status ≡ true = rw p refl in
          subst IsTidy (ap (λ x. x.1) (ok_injective (rw (e, w, begin_expiry, f, p) at h))) (
            put-IsTidy s _ id (record b { status = expiring }) v refl
              (record {
                due = old.due ∙ waits;
                one_token = rw waits at old.one_token;
                one_confirmation = omega (arith, rw waits at old.one_confirmation);
              })
              (λ k m. (refl, omega arith)) (refl, v.moves))
    ]
  ]
]

pub release-IsTidy :
    (s : BookingStore) (id : ℕ) (t : BookingStore) → IsTidy s → release s id ≡ ok t → IsTidy t
unfolding release assert_transition
release-IsTidy s id t v h = elim (Option-cases (s.bookings id)) [
  | inl e ↦ subst IsTidy (ok_injective (rw (e, release) at h)) v
  | inr (b, e) ↦ elim (Bool-cases (same_status b.status expiring)) [
    | inr w ↦ subst IsTidy (ok_injective (rw (e, w, release) at h)) v
    | inl w ↦
        let p = same_status-eq b.status expiring w in
        let old = v.rows id b e in
        subst IsTidy (ok_injective (rw (e, w, release, p) at h)) (
          put-IsTidy s _ id (record b { status = expired; expires_at = none }) v refl
            (record {
              due = refl;
              one_token = omega (arith, old.one_token);
              one_confirmation = omega (arith, old.one_confirmation);
            })
            (λ k m. (refl, refl)) (refl, v.moves))
  ]
]

pub mark_payment_failed-IsTidy :
    (s : BookingStore) (id : ℕ) (t : BookingStore)
    → IsTidy s
    → mark_payment_failed s id ≡ ok t
    → IsTidy t
unfolding mark_payment_failed assert_transition
mark_payment_failed-IsTidy s id t v h = elim (Option-cases (s.bookings id)) [
  | inl e ↦ subst IsTidy (ok_injective (rw (e, mark_payment_failed) at h)) v
  | inr (b, e) ↦ elim (Bool-cases (same_status b.status pending_payment)) [
    | inr w ↦ subst IsTidy (ok_injective (rw (e, w, mark_payment_failed) at h)) v
    | inl w ↦
        let p = same_status-eq b.status pending_payment w in
        let old = v.rows id b e in
        subst IsTidy (ok_injective (rw (e, w, mark_payment_failed, p) at h)) (
          put-IsTidy s _ id (record b { status = payment_failed; expires_at = none }) v refl
            (record {
              due = refl;
              one_token = omega (arith, old.one_token);
              one_confirmation = omega (arith, old.one_confirmation);
            })
            (λ k m. (refl, omega arith)) (refl, v.moves))
  ]
]

-- A status that is not terminal, and not confirmed, waits and may be confirmed.
pub confirmable :
    (b : BookingStatus)
    → same_status b confirmed ≡ false
    → is_terminal b ≡ false
    → (awaits b ≡ true) × (can_transition (some b) confirmed ≡ true)
unfolding is_terminal can_transition
confirmable b h k = ground arith

pub confirm_once-IsTidy :
    (s : BookingStore) (input : ConfirmPaidInput) (r : ConfirmOutcome × BookingStore)
    → IsTidy s
    → confirm_once s input ≡ ok r
    → IsTidy r.1
unfolding confirm_once assert_transition
confirm_once-IsTidy s input r v h = elim (Option-cases (s.bookings input.booking_id)) [
  | inl e ↦ ground (arith, rw (e, confirm_once) at h)
  | inr (b, e) ↦ elim (Bool-cases (same_status b.status confirmed)) [
    | inl w ↦ subst IsTidy (ap (λ x. x.1) (ok_injective (rw (e, w, confirm_once) at h))) v
    | inr w ↦ elim (Bool-cases (is_terminal b.status)) [
      | inl f ↦ subst IsTidy (ap (λ x. x.1) (ok_injective (rw (e, w, confirm_once, f) at h))) v
      | inr f ↦
          let (waits, may) = confirmable b.status w f in
          let old = v.rows input.booking_id b e in
          let here : (input.booking_id == input.booking_id) ≡ true = ground arith in
          subst IsTidy
            (ap (λ x. x.1) (ok_injective (rw (e, w, confirm_once, f, assert_transition, may) at h)))
            (put-IsTidy s _ input.booking_id
              (record b { status = confirmed; expires_at = none; session = some input.session_id })
              v refl
              (record {
                due = refl;
                one_token = rw here (omega (arith, rw waits at old.one_token));
                one_confirmation = rw here (omega (arith, rw waits at old.one_confirmation));
              })
              (λ k m. (ground arith, ground arith)) (may, v.moves))
    ]
  ]
]
