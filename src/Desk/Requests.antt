-- ===== src/Desk/Requests.antt =====
-- Of each booking one request at most is open, whatever is answered.
use shape_and_flow.Base.{
  ℕ, ◌≡◌, refl, sym, subst, inl, inr, Bool, true, false, ◌&&◌, not, Option, List, [], ◌∷◌, map, any,
  arith, Bool-cases, ◌==◌,
}
use shape_and_flow.Money.{Money}
use shape_and_flow.Desk.Rows.{CancellationRequest, is_open}
use shape_and_flow.Desk.Cancelling.{is_open_for, close_request}
use shape_and_flow.Desk.Deciding.{update_request, reject_with, approve_with}
use shape_and_flow.Desk.Safe.{OneOpen}

-- A change that opens no request.
pub record OpensNone (f : CancellationRequest → CancellationRequest) : Type 0 where
  pub same_booking : (r : CancellationRequest) → (f r).booking_id ≡ r.booking_id
  pub opens_none :
      (r : CancellationRequest) → (is_open (f r).decision && not (is_open r.decision)) ≡ false

shut_both :
    (q r before after : Bool)
    → (q && not r) ≡ false
    → (before ≡ false → after ≡ false)
    → (r && before) ≡ false
    → (q && after) ≡ false
shut_both false r before after s imp h = refl
shut_both true true before after s imp h = imp h
shut_both true false before after s imp h = absurd (cc)

not_both : (q : Bool) → (q && not q) ≡ false
not_both q = ground arith

-- A request that stands in another's place, above others that open nothing more.
head_shut :
    (r q : CancellationRequest) (rs ts : List CancellationRequest)
    → q.booking_id ≡ r.booking_id
    → (is_open q.decision && not (is_open r.decision)) ≡ false
    → (any (is_open_for r.booking_id) rs ≡ false → any (is_open_for r.booking_id) ts ≡ false)
    → (is_open r.decision && any (is_open_for r.booking_id) rs) ≡ false
    → (is_open q.decision && any (is_open_for q.booking_id) ts) ≡ false
head_shut r q rs ts same shut imp h =
    subst (λ b. (is_open q.decision && any (is_open_for b) ts) ≡ false) (sym same)
      (shut_both (is_open q.decision) (is_open r.decision) (any (is_open_for r.booking_id) rs)
        (any (is_open_for r.booking_id) ts) shut imp h)

module _ (f : CancellationRequest → CancellationRequest) (u : OpensNone f) where
  any-map :
      (id : ℕ) (rs : List CancellationRequest)
      → any (is_open_for id) rs ≡ false
      → any (is_open_for id) (map f rs) ≡ false
  any-map id [] h = refl
  any-map id (r ∷ rs) h = ground (arith, u.same_booking r, u.opens_none r, any-map id rs)

  pub map-OneOpen : (rs : List CancellationRequest) → OneOpen rs → OneOpen (map f rs)
  map-OneOpen [] v = tt
  map-OneOpen (r ∷ rs) v = (
    head_shut r (f r) rs (map f rs) (u.same_booking r) (u.opens_none r) (any-map r.booking_id rs)
        v.0,
    map-OneOpen rs v.1,
  )

  any-update :
      (id of_id : ℕ) (rs : List CancellationRequest)
      → any (is_open_for id) rs ≡ false
      → any (is_open_for id) (update_request of_id f rs) ≡ false
  unfolding update_request
  any-update id of_id [] h = refl
  any-update id of_id (r ∷ rs) h =
      ground (arith, u.same_booking r, u.opens_none r, any-update id of_id rs)

  pub update_request-OneOpen :
      (of_id : ℕ) (rs : List CancellationRequest) → OneOpen rs → OneOpen (update_request of_id f rs)
  unfolding update_request
  update_request-OneOpen of_id [] v = tt
  update_request-OneOpen of_id (r ∷ rs) v = elim (Bool-cases (r.id == of_id)) [
    | inl hit ↦
        rw (hit, update_request)
          (head_shut r (f r) rs rs (u.same_booking r) (u.opens_none r) (λ h. h) v.0, v.1)
    | inr miss ↦
        rw (miss, update_request)
          (
            head_shut r r rs (update_request of_id f rs) refl (not_both (is_open r.decision))
                (any-update r.booking_id of_id rs) v.0,
            update_request-OneOpen of_id rs v.1,
          )
  ]

pub close_request-OpensNone : (id : ℕ) → OpensNone (close_request id)
close_request-OpensNone id = record {
  same_booking = λ r. ground arith;
  opens_none = λ r. ground arith;
}

pub reject_with-OpensNone : OpensNone reject_with
reject_with-OpensNone = record { same_booking = λ r. refl; opens_none = λ r. refl }

pub approve_with-OpensNone :
    (retained : Money) (refund_id : Option ℕ) → OpensNone (approve_with retained refund_id)
approve_with-OpensNone retained refund_id = record {
  same_booking = λ r. refl;
  opens_none = λ r. refl;
}
