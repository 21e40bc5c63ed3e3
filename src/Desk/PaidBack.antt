-- ===== src/Desk/PaidBack.antt =====
-- What an approved cancellation pays back.
use shape_and_flow.Base.{
  ℕ, ◌+◌, ◌-◌, ◌≤◌, ◌≡◌, refl, sym, ap, subst, inl, inr, Bool, true, false, ◌||◌, some, List, [],
  ◌∷◌, arith, Bool-cases, ok, Chain-of, chain, ok_injective, ◌∙◌, ◌==◌, map, min, max,
}
use shape_and_flow.Base.Text.{Text}
use shape_and_flow.Base.Int.{ℤ, pos, pos_part, ltb_ℤ, ◌-ℤ◌}
use shape_and_flow.Money.{Money}
use shape_and_flow.Money.Laws.{minus-ok}
use shape_and_flow.Booking.Status.{canceled_by_customer, BookingStatus}
use shape_and_flow.Refund.Store.{PaymentRow}
use shape_and_flow.Refund.Service.{
  RefundReservationResult, cumulative_target, root_booking_id, lock_payment,
}
use shape_and_flow.Refund.Reserve.{from_cents-ok}
use shape_and_flow.Refund.Target.{committed, reserve_in_transaction-target}
use shape_and_flow.Calendar.Rows.{AppointmentRow}
use shape_and_flow.Calendar.Writes.{update_appointments, set_status}
use shape_and_flow.Desk.Rows.{CancellationRequest, Desk, books, booking_row}
use shape_and_flow.Desk.Paid.{paid_total}
use shape_and_flow.Desk.Cancelling.{change_status}
use shape_and_flow.Desk.Deciding.{
  DecideRequestInput, requested_cents, validate_retained, find_request, approve, write_decision,
  decide_request,
}
use shape_and_flow.Desk.Safe.{refunds, reserve_refund-Refunds, load_booking-id}
use shape_and_flow.Desk.Steps.{decides, decide_request-Decides}
use shape_and_flow.Desk.Rights.{approves, approve-Approves}

-- The decision pays back what was paid less what is kept, as far as the payment goes.
pub record PaysBack (s : Desk) (input : DecideRequestInput) (request : CancellationRequest)
    (p : PaymentRow) (t : Desk) : Type 0 where
  pub currency : Text
  pub paid : Money
  pub paid_eq : paid_total s request.booking_id currency ≡ ok paid
  pub kept : ℕ
  pub target : ℕ
  pub kept_eq : requested_cents input request ≡ pos kept
  pub whole : paid.amount_cents ≡ pos (kept + target)
  pub paid_back : committed t.ledger p ≡ max (committed s.ledger p) (min target p.amount_cents)

retained_arith :
    (cents paid : ℤ)
    → (ltb_ℤ cents (pos 0) || ltb_ℤ paid cents) ≡ false
    → (cents ≡ pos (pos_part cents))
      × (paid ≡ pos (pos_part cents + (pos_part paid - pos_part cents)))
      × (paid -ℤ cents ≡ pos (pos_part paid - pos_part cents))
unfolding ◌-ℤ◌
retained_arith cents paid h = ground arith

-- What is retained is what was asked for, between nothing and everything.
validate_retained-cents :
    (input : DecideRequestInput) (request : CancellationRequest) (paid retained : Money)
    → validate_retained input request paid ≡ ok retained
    → ((ltb_ℤ (requested_cents input request) (pos 0)
          || ltb_ℤ paid.amount_cents (requested_cents input request))
        ≡ false)
      × (retained.amount_cents ≡ requested_cents input request)
unfolding validate_retained
validate_retained-cents input request paid retained h =
    let cents = requested_cents input request in
    elim (Bool-cases (ltb_ℤ cents (pos 0) || ltb_ℤ paid.amount_cents cents)) [
      | inl out ↦ absurd (cc (rw (out, validate_retained) at h))
      | inr fits ↦
          (fits, (from_cents-ok cents paid.currency retained (rw (fits, validate_retained) at h)).0)
    ]

-- The money stays on the booking that it is on.
pub booking_rows-kept :
    (id : ℕ) (to : BookingStatus) (rows : List AppointmentRow)
    → map booking_row (update_appointments id (set_status to) rows) ≡ map booking_row rows
unfolding update_appointments
booking_rows-kept id to [] = refl
booking_rows-kept id to (a ∷ rows) = elim (Bool-cases (a.id == id)) [
  | inl hit ↦ rw (hit, update_appointments) refl
  | inr miss ↦
      rw (miss, update_appointments) (ap (λ rs. booking_row a ∷ rs) (booking_rows-kept id to rows))
]

books-change_status :
    (s : Desk) (b : AppointmentRow) (to : BookingStatus) → books (change_status s b to) ≡ books s
unfolding change_status
books-change_status s b to =
    ap (λ rows. record s.ledger { bookings = rows })
      (booking_rows-kept b.id to s.calendar.appointments)

module _ (s : Desk) (booking : AppointmentRow) (paid retained : Money) (may : Bool)
    (root target : ℕ) (p : PaymentRow) (rooted : root_booking_id (books s) booking.id ≡ ok root)
    (locked : lock_payment (books s) root true ≡ ok (some p))
    (covered : committed s.ledger p ≤ p.amount_cents)
    (left : paid.amount_cents -ℤ retained.amount_cents ≡ pos target) where
  approve-pays_back :
      (r : RefundReservationResult × Desk)
      → approve s booking paid retained may ≡ ok r
      → committed r.1.ledger p ≡ max (committed s.ledger p) (min target p.amount_cents)
  approve-pays_back r h = elim (approve-Approves s booking paid retained may r h) [
    | approves current goal reserved hc ht hr e ↦
        elim (reserve_refund-Refunds (change_status s current canceled_by_customer) booking.id
          (cumulative_target goal.amount_cents) true may reserved hr) [
            | refunds q hq _ e2 ↦
                let same = books-change_status s current canceled_by_customer in
                let goal_eq : goal.amount_cents ≡ pos target =
                  (minus-ok paid retained goal ht).2 ∙ left in
                ap (λ (x : RefundReservationResult × Desk). committed x.1.ledger p) e
                ∙ ap (λ (x : RefundReservationResult × Desk). committed x.1.ledger p) e2
                ∙ reserve_in_transaction-target (books s) booking.id target root true p q rooted
                    locked covered (rw (same, goal_eq) at hq)
          ]
  ]

-- An approval that returned, of a request whose booking's money is on a payment that its refunds stay
-- within: what is kept, as asked for or as suggested, is between nothing and all that was paid, and
-- the cents of the payment that are back or on their way become the rest of what was paid, or the
-- whole charge where that is less, unless they were more already.
pub decide_request-PaysBack :
    (s : Desk) (input : DecideRequestInput) (t : Desk) (request : CancellationRequest) (root : ℕ)
    (p : PaymentRow)
    → decide_request s input ≡ ok t
    → input.approves ≡ true
    → find_request s input.request_id ≡ ok request
    → root_booking_id (books s) request.booking_id ≡ ok root
    → lock_payment (books s) root true ≡ ok (some p)
    → committed s.ledger p ≤ p.amount_cents
    → PaysBack s input request p t
unfolding write_decision
decide_request-PaysBack s input t request root p h agreed asked rooted locked covered =
    elim (decide_request-Decides s input t h) [
      | decides found booking paid retained hf hb _ hp hv k ↦
          let own : found ≡ request = ok_injective (sym hf ∙ asked) in
          let at_booking : booking.id ≡ request.booking_id =
            load_booking-id s found.booking_id booking hb
            ∙ ap (λ (x : CancellationRequest). x.booking_id) own in
          let (fits, kept_eq) = validate_retained-cents input found paid retained hv in
          let (exact, whole, rest) =
            retained_arith (requested_cents input found) paid.amount_cents fits in
          let here = load_booking-id s found.booking_id booking hb in
          let cents = requested_cents input found in
          let target = pos_part paid.amount_cents - pos_part cents in
          elim (Chain-of (approve s booking paid retained input.may_issue_refunds) _
            (rw (agreed, write_decision) at k)) [
              | chain r hr h1 ↦
                  subst (λ x. PaysBack s input x p t) own
                    (record {
                      currency = booking.currency;
                      paid = paid;
                      paid_eq = subst (λ i. paid_total s i booking.currency ≡ ok paid) here hp;
                      kept = pos_part cents;
                      target = target;
                      kept_eq = exact;
                      whole = whole;
                      paid_back =
                          sym (ap (λ (x : Desk). committed x.ledger p) (ok_injective h1))
                          ∙ approve-pays_back s booking paid retained input.may_issue_refunds root
                              target p
                              (subst (λ i. root_booking_id (books s) i ≡ ok root) (sym at_booking)
                                rooted)
                              locked covered (ap (λ c. paid.amount_cents -ℤ c) kept_eq ∙ rest) r hr;
                    })
            ]
    ]
