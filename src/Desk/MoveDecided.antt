-- ===== src/Desk/MoveDecided.antt =====
-- The decision of a request to move: what it leaves safe, and the money that follows the booking.
use shape_and_flow.Base.{
  ℕ, ◌≡◌, refl, sym, ap, subst, inl, inr, true, Option, some, List, ◌∷◌, map, arith, ◌==◌,
  Bool-cases, ok, Chain-of, chain, ok_injective, ◌∙◌,
}
use shape_and_flow.Base.Text.{Text}
use shape_and_flow.LocalTime.{Luxon}
use shape_and_flow.Booking.Status.{confirmed, canceled_by_business, same_status}
use shape_and_flow.Refund.Store.{Store, find_booking}
use shape_and_flow.Refund.Service.{root_booking_id}
use shape_and_flow.Calendar.Rows.{OrganizationSettings, AppointmentRow}
use shape_and_flow.Calendar.Writes.{update_appointments, set_status}
use shape_and_flow.Desk.Rows.{RescheduleRequest, Desk, books, booking_row}
use shape_and_flow.Desk.Paid.{paid_total}
use shape_and_flow.Desk.Cancelling.{load_booking}
use shape_and_flow.Desk.Moving.{
  DecideRescheduleInput, employee_or, lock_move, root_of, approve_move, decide_reschedule,
}
use shape_and_flow.Refund.Ledger.{IsSound}
use shape_and_flow.Desk.Safe.{IsSafe, OneOpen, load_booking-found, load_booking-id}
use shape_and_flow.Desk.PaidBack.{booking_rows-kept}
use shape_and_flow.Desk.Moved.{moves_to, approve_move-MovesTo}
use shape_and_flow.Desk.Moves.{
  find_booking-row, root_booking_id-of, paid_total-same, Moves, Swapped-Moves, Swapped-Kept,
}

-- An approved move, of the request that was waiting and of the booking that it was for.
pub record ApprovedMove (s : Desk) (input : DecideRescheduleInput) (r : Option ℕ × Desk)
    : Type 0 where
  pub request : RescheduleRequest
  pub booking : AppointmentRow
  pub new : AppointmentRow
  pub asked : lock_move s input.request_id ≡ ok request
  pub was : load_booking s request.booking_id ≡ ok booking
  pub was_confirmed : same_status booking.status confirmed ≡ true
  pub result : r.0 ≡ some new.id
  pub moves : Moves s request booking new r.1

-- The approval inside the decision.
pub data MoveDone (luxon : Luxon) (organization : OrganizationSettings) (now : ℕ) (s : Desk)
    (input : DecideRescheduleInput) (r : Option ℕ × Desk) : Type 0 where
  move_done :
      (request : RescheduleRequest) (done : AppointmentRow × Desk)
      → lock_move s input.request_id ≡ ok request
      → approve_move luxon organization now s request ≡ ok done
      → r ≡ (some done.0.id, done.1)
      → MoveDone luxon organization now s input r

module _ (luxon : Luxon) (organization : OrganizationSettings) (now : ℕ) (s : Desk)
    (input : DecideRescheduleInput) (r : Option ℕ × Desk)
    (h : decide_reschedule luxon organization now s input ≡ ok r) where
  pub decide_reschedule-MoveDone : input.approves ≡ true → MoveDone luxon organization now s input r
  unfolding decide_reschedule
  decide_reschedule-MoveDone agreed = elim (Chain-of (lock_move s input.request_id) _ h) [
    | chain request hl h1 ↦
        elim (Chain-of (approve_move luxon organization now s request) _ (rw (agreed) at h1)) [
          | chain done hd h2 ↦ move_done request done hl hd (sym (ok_injective h2))
        ]
  ]

  approved-ApprovedMove : input.approves ≡ true → ApprovedMove s input r
  approved-ApprovedMove agreed = elim (decide_reschedule-MoveDone agreed) [
    | move_done request done hl hd e ↦
        elim (approve_move-MovesTo luxon organization now s request done hd) [
          | moves_to booking snapshot block hb stands _ _ _ w ↦
              subst (ApprovedMove s input) (sym e) (record {
                request = request;
                booking = booking;
                new = done.0;
                asked = hl;
                was = hb;
                was_confirmed = stands;
                result = refl;
                moves =
                    Swapped-Moves s request booking _ block done
                      (load_booking-found s request.booking_id booking hb) stands refl w;
              })
        ]
  ]

  approved-IsSafe : input.approves ≡ true → IsSafe s → IsSafe r.1
  approved-IsSafe agreed v = elim (decide_reschedule-MoveDone agreed) [
    | move_done request done hl hd e ↦
        elim (approve_move-MovesTo luxon organization now s request done hd) [
          | moves_to booking snapshot block hb stands _ _ _ w ↦
              let found = load_booking-found s request.booking_id booking hb in
              let id = employee_or request.requested_employee_id booking.employee_id in
              let m = Swapped-Moves s request booking id block done found stands refl w in
              subst (λ (x : Option ℕ × Desk). IsSafe x.1) (sym e)
                (record {
                  calendar_kept =
                      Swapped-Kept s request booking id block done found stands refl w m
                        v.calendar_kept;
                  ledger_sound = subst IsSound (sym m.ledger_is) v.ledger_sound;
                  one_open = subst OneOpen (sym m.requests_are) v.one_open;
                })
        ]
  ]

  pub decide_reschedule-IsSafe : IsSafe s → IsSafe r.1
  unfolding decide_reschedule
  decide_reschedule-IsSafe v = elim (Bool-cases input.approves) [
    | inl agreed ↦ approved-IsSafe agreed v
    | inr declined ↦ elim (Chain-of (lock_move s input.request_id) _ h) [
      | chain request hl h1 ↦
          subst (λ (x : Option ℕ × Desk). IsSafe x.1) (ok_injective (rw (declined) at h1))
            (record {
              calendar_kept = v.calendar_kept;
              ledger_sound = v.ledger_sound;
              one_open = v.one_open;
            })
    ]
  ]

-- An approval that returned moved the confirmed booking of a request that was waiting: the
-- replacement keeps what was sold, its price and its customer, starts when and with whom it was asked
-- to, is the only new booking and stands beside the old one, canceled, whose time it does not overlap
-- on the same employee's calendar, and holds its money at the old one's root.
pub decide_reschedule-ApprovedMove :
    (luxon : Luxon) (organization : OrganizationSettings) (now : ℕ) (s : Desk)
    (input : DecideRescheduleInput) (r : Option ℕ × Desk)
    → decide_reschedule luxon organization now s input ≡ ok r
    → input.approves ≡ true
    → ApprovedMove s input r
decide_reschedule-ApprovedMove luxon organization now s input r h agreed =
    approved-ApprovedMove luxon organization now s input r h agreed

same_id : (id : ℕ) → (id == id) ≡ true
same_id id = ground arith

-- The replacement is found under its id, canceled or not.
find_booking-new :
    (id : ℕ) (new : AppointmentRow) (rows : List AppointmentRow)
    → find_booking new.id
        (map booking_row (update_appointments id (set_status canceled_by_business) (new ∷ rows)))
      ≡ some (booking_row new)
find_booking-new id new rows =
    ap (find_booking new.id) (booking_rows-kept id canceled_by_business (new ∷ rows))
    ∙ rw (same_id new.id) refl

num_injective : {a b : ℕ} → some b ≡ some a → b ≡ a
num_injective h = cc

root_of-some : (a : AppointmentRow) (root : ℕ) → a.financial_root ≡ some root → root_of a ≡ root
root_of-some a root h = rw (h) refl

-- Whatever was paid on a booking, in a currency, is what counts as paid on the one that replaces it
-- once its move is approved, and the other way round: the money of both is at one root.
pub decide_reschedule-paid_total :
    (luxon : Luxon) (organization : OrganizationSettings) (now : ℕ) (s : Desk)
    (input : DecideRescheduleInput) (new_id : ℕ) (t : Desk) (request : RescheduleRequest)
    (currency : Text)
    → decide_reschedule luxon organization now s input ≡ ok (some new_id, t)
    → input.approves ≡ true
    → lock_move s input.request_id ≡ ok request
    → paid_total t new_id currency ≡ paid_total s request.booking_id currency
decide_reschedule-paid_total luxon organization now s input new_id t request currency h agreed
      asked =
    let a = approved-ApprovedMove luxon organization now s input (some new_id, t) h agreed in
    let own : a.request ≡ request = ok_injective (sym a.asked ∙ asked) in
    let new_is : a.new.id ≡ new_id = num_injective (sym a.result) in
    let old_is : a.booking.id ≡ request.booking_id =
      load_booking-id s a.request.booking_id a.booking a.was
      ∙ ap (λ (x : RescheduleRequest). x.booking_id) own in
    let old_root : root_booking_id (books s) a.booking.id ≡ ok (root_of a.booking) =
      root_booking_id-of s a.booking.id a.booking (
        find_booking-row a.booking.id s.calendar.appointments a.booking
          (load_booking-found s a.request.booking_id a.booking a.was)) in
    let new_root : root_booking_id (books t) a.new.id ≡ ok (root_of a.booking) =
      root_booking_id-of t a.new.id a.new (
        ap (λ rows. find_booking a.new.id (map booking_row rows)) a.moves.stored
        ∙ find_booking-new a.booking.id a.new s.calendar.appointments)
      ∙ ap ok (root_of-some a.new (root_of a.booking) a.moves.rooted) in
    ap (λ i. paid_total t i currency) (sym new_is)
    ∙ paid_total-same t s a.new.id a.booking.id currency (root_of a.booking) new_root old_root
        (ap (λ (x : Store). x.payments) a.moves.ledger_is) a.moves.counted
    ∙ ap (λ i. paid_total s i currency) old_is
