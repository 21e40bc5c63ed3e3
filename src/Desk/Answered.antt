-- ===== src/Desk/Answered.antt =====
-- What a decision leaves behind: the answer stands, and the customer has back what was not retained.
use shape_and_flow.Base.{
  ℕ, ◌≡◌, refl, sym, ap, subst, inl, inr, Bool, true, false, some, List, [], ◌∷◌, arith, Bool-cases,
  Option-cases, ok, err, Chain-of, chain, ok_injective, ◌∙◌, find, ◌==◌, request_already_decided,
}
use shape_and_flow.Money.{Money}
use shape_and_flow.Booking.Status.{canceled_by_customer}
use shape_and_flow.Refund.Service.{RefundReservationResult, cumulative_target}
use shape_and_flow.Calendar.Rows.{AppointmentRow}
use shape_and_flow.Calendar.Writes.{find_appointment, update_appointments, set_status}
use shape_and_flow.Desk.Rows.{CancellationRequest, is_open, Desk}
use shape_and_flow.Desk.Cancelling.{load_booking, change_status}
use shape_and_flow.Desk.Deciding.{
  DecideRequestInput, find_request, approve, update_request, reject_with, approve_with,
  write_decision, decide_request,
}
use shape_and_flow.Desk.Safe.{refunds, reserve_refund-Refunds}
use shape_and_flow.Desk.Steps.{decides, decide_request-Decides}
use shape_and_flow.Desk.Rights.{approves, approve-Approves}

-- The test for the row of an id.
abbrev has_id : ℕ → CancellationRequest → Bool
has_id id r = r.id == id

find_head :
    {A : Type 0} (p : A → Bool) (a : A) (rest : List A) → p a ≡ true → find p (a ∷ rest) ≡ some a
find_head p a rest h = rw (h) refl

find-update_request :
    (id : ℕ) (f : CancellationRequest → CancellationRequest) (rs : List CancellationRequest)
    (r : CancellationRequest)
    → ((q : CancellationRequest) → (f q).id ≡ q.id)
    → find (has_id id) rs ≡ some r
    → find (has_id id) (update_request id f rs) ≡ some (f r)
unfolding update_request
find-update_request id f [] r k h = cc
find-update_request id f (q ∷ rs) r k h = elim (Bool-cases (q.id == id)) [
  | inl hit ↦
      let same : q ≡ r = ground arith in
      rw (hit, update_request)
        (find_head (has_id id) (f q) rs (ap (λ i. i == id) (k q) ∙ hit) ∙ ap (λ x. some (f x)) same)
  | inr miss ↦ rw (miss, update_request, miss) (find-update_request id f rs r k (rw (miss) at h))
]

find_request-id :
    (id : ℕ) (rs : List CancellationRequest) (r : CancellationRequest)
    → find (has_id id) rs ≡ some r
    → r.id ≡ id
find_request-id id [] r h = cc
find_request-id id (q ∷ rs) r h = elim (Bool-cases (q.id == id)) [
  | inl hit ↦ ground arith
  | inr miss ↦ find_request-id id rs r (rw (miss) at h)
]

find_request-found :
    (s : Desk) (id : ℕ) (r : CancellationRequest)
    → find_request s id ≡ ok r
    → (find (has_id id) s.requests ≡ some r) × (r.id ≡ id)
unfolding find_request
find_request-found s id r h = elim (Option-cases (find (has_id id) s.requests)) [
  | inl missing ↦ absurd (cc (rw (missing, find_request) at h))
  | inr (q, found) ↦
      let same : q ≡ r = ok_injective (rw (found, find_request) at h) in
      let own : find (has_id id) s.requests ≡ some r = found ∙ ap some same in
      (own, find_request-id id s.requests r own)
]

find_request-some :
    (t : Desk) (id : ℕ) (r : CancellationRequest)
    → find (has_id id) t.requests ≡ some r
    → find_request t id ≡ ok r
unfolding find_request
find_request-some t id r h = rw (find_request, h) refl

-- The booking is still there.
find-update_appointments :
    (id other : ℕ) (rows : List AppointmentRow) (b : AppointmentRow)
    → find_appointment id rows ≡ some b
    → (c : AppointmentRow) × (find_appointment id
          (update_appointments other (set_status canceled_by_customer) rows)
        ≡ some c)
unfolding update_appointments
find-update_appointments id other [] b h = absurd (cc)
find-update_appointments id other (a ∷ rows) b h = elim (Bool-cases (a.id == other)) [
  | inl hit ↦ elim (Bool-cases (a.id == id)) [
    | inl own ↦ (set_status canceled_by_customer a, rw (hit, update_appointments, own) refl)
    | inr apart ↦ (b, rw (hit, update_appointments, apart) (rw (apart) at h))
  ]
  | inr miss ↦ elim (Bool-cases (a.id == id)) [
    | inl own ↦ (a, rw (miss, update_appointments, own) refl)
    | inr apart ↦
        let (c, found) = find-update_appointments id other rows b (rw (apart) at h) in
        (c, rw (miss, update_appointments, apart) found)
  ]
]

load_booking-some :
    (t : Desk) (id : ℕ) (b : AppointmentRow)
    → find_appointment id t.calendar.appointments ≡ some b
    → load_booking t id ≡ ok b
unfolding load_booking
load_booking-some t id b h = rw (load_booking, h) refl

-- A request that is answered, of a booking that is there, is not decided again.
answered :
    (t : Desk) (input : DecideRequestInput) (r : CancellationRequest) (b : AppointmentRow)
    → find_request t input.request_id ≡ ok r
    → is_open r.decision ≡ false
    → load_booking t r.booking_id ≡ ok b
    → decide_request t input ≡ err request_already_decided
unfolding decide_request
answered t input r b hf shut hb = rw (decide_request, hf, hb, shut) refl

-- What an approval does to the calendar and to the requests.
approve-calendar :
    (s : Desk) (booking : AppointmentRow) (paid retained : Money) (may : Bool)
    (r : RefundReservationResult × Desk)
    → approve s booking paid retained may ≡ ok r
    → (other : ℕ) × (r.1.calendar.appointments
        ≡ update_appointments other (set_status canceled_by_customer) s.calendar.appointments)
      × (r.1.requests ≡ s.requests)
unfolding change_status
approve-calendar s booking paid retained may r h =
    elim (approve-Approves s booking paid retained may r h) [
      | approves current target reserved hc ht hr e ↦
          elim (reserve_refund-Refunds (change_status s current canceled_by_customer) booking.id
            (cumulative_target target.amount_cents) true may reserved hr) [
              | refunds q hq _ e2 ↦ (
                current.id,
                ap (λ (x : RefundReservationResult × Desk). x.1.calendar.appointments) e
                    ∙ ap (λ (x : RefundReservationResult × Desk). x.1.calendar.appointments) e2,
                ap (λ (x : RefundReservationResult × Desk). x.1.requests) e
                    ∙ ap (λ (x : RefundReservationResult × Desk). x.1.requests) e2,
              )
            ]
    ]

load_booking-at :
    (s : Desk) (id : ℕ) (b : AppointmentRow)
    → load_booking s id ≡ ok b
    → find_appointment id s.calendar.appointments ≡ some b
unfolding load_booking
load_booking-at s id b h = elim (Option-cases (find_appointment id s.calendar.appointments)) [
  | inl missing ↦ absurd (cc (rw (missing, load_booking) at h))
  | inr (row, found) ↦ found ∙ ap some (ok_injective (rw (found, load_booking) at h))
]

-- What a decision that was written left of the request and of the booking.
data Leaves (t : Desk) (id booking_id : ℕ) : Type 0 where
  leaves :
      (r : CancellationRequest) (b : AppointmentRow)
      → find_request t id ≡ ok r
      → is_open r.decision ≡ false
      → load_booking t r.booking_id ≡ ok b
      → Leaves t id booking_id

module _ (s : Desk) (input : DecideRequestInput) (request : CancellationRequest)
    (booking : AppointmentRow) (paid retained : Money) (t : Desk)
    (found : find_request s input.request_id ≡ ok request)
    (here : load_booking s request.booking_id ≡ ok booking) where
  left_by :
      (f : CancellationRequest → CancellationRequest) (b : AppointmentRow)
      → ((q : CancellationRequest) → (f q).id ≡ q.id)
      → ((q : CancellationRequest) → (f q).booking_id ≡ q.booking_id)
      → is_open (f request).decision ≡ false
      → t.requests ≡ update_request request.id f s.requests
      → find_appointment request.booking_id t.calendar.appointments ≡ some b
      → Leaves t input.request_id request.booking_id
  left_by f b keeps_id keeps_booking shut e hb =
      let (listed, same) = find_request-found s input.request_id request found in
      let after : find (has_id input.request_id) t.requests ≡ some (f request) =
        ap (find (has_id input.request_id)) (e ∙ ap (λ i. update_request i f s.requests) same)
        ∙ find-update_request input.request_id f s.requests request keeps_id listed in
      leaves (f request) b (find_request-some t input.request_id (f request) after) shut (
        load_booking-some t (f request).booking_id b (
          subst (λ i. find_appointment i t.calendar.appointments ≡ some b)
            (sym (keeps_booking request)) hb))

  write_decision-Leaves :
      write_decision s input request booking paid retained ≡ ok t
      → Leaves t input.request_id request.booking_id
  unfolding write_decision
  write_decision-Leaves k =
      let at_first = load_booking-at s request.booking_id booking here in
      elim (Bool-cases input.approves) [
        | inr declined ↦
            let e = ok_injective (rw (declined, write_decision) at k) in
            left_by reject_with booking (λ q. refl) (λ q. refl) refl
              (sym (ap (λ (x : Desk). x.requests) e))
              (subst
                (λ (x : Desk).
                  find_appointment request.booking_id x.calendar.appointments ≡ some booking)
                e at_first)
        | inl agreed ↦
            elim (Chain-of (approve s booking paid retained input.may_issue_refunds) _
              (rw (agreed, write_decision) at k)) [
                | chain r hr h1 ↦
                    let e = ok_injective h1 in
                    let (other, rows, kept) =
                      approve-calendar s booking paid retained input.may_issue_refunds r hr in
                    let (c, there) =
                      find-update_appointments request.booking_id other s.calendar.appointments
                        booking at_first in
                    left_by (approve_with retained r.0.refund_id) c (λ q. refl) (λ q. refl) refl
                      (sym (ap (λ (x : Desk). x.requests) e)
                        ∙ ap (update_request request.id (approve_with retained r.0.refund_id)) kept)
                      (subst
                        (λ (x : Desk).
                          find_appointment request.booking_id x.calendar.appointments ≡ some c)
                        e
                        (subst (λ rs. find_appointment request.booking_id rs ≡ some c) (sym rows)
                          there))
              ]
      ]

-- A decision that returned is final: whatever the office answers the same request after it, with
-- whatever rights and amounts, is refused as decided already.
pub decide_request-final :
    (s : Desk) (input again : DecideRequestInput) (t : Desk)
    → decide_request s input ≡ ok t
    → again.request_id ≡ input.request_id
    → decide_request t again ≡ err request_already_decided
decide_request-final s input again t h same = elim (decide_request-Decides s input t h) [
  | decides request booking paid retained hf hb _ _ _ k ↦
      elim (write_decision-Leaves s input request booking paid retained t hf hb k) [
        | leaves r b found shut here ↦
            answered t again r b (subst (λ i. find_request t i ≡ ok r) (sym same) found) shut here
      ]
]
