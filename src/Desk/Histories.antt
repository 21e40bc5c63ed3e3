-- ===== src/Desk/Histories.antt =====
-- Whatever customers, the office, the refund job and the provider do at the desk, in any order.
use shape_and_flow.Base.{
  ℕ, ◌≡◌, refl, subst, inl, inr, Bool, true, false, ◌||◌, not, some, List, [], ◌∷◌, leb, Bool-cases,
  Outcome, ok, err, Chain-of, chain, ok_injective, ◌>>◌, invalid_status_transition,
  booking_not_reschedulable, any,
}
use shape_and_flow.Base.Int.{ℤ}
use shape_and_flow.LocalTime.{Luxon}
use shape_and_flow.Money.{from_cents}
use shape_and_flow.Booking.Status.{
  BookingStatus, pending_payment, expiring, confirmed, expired, payment_failed,
  canceled_by_customer, canceled_by_business, completed, no_show, same_status, is_blocking,
  assert_transition, can_transition, transitions, blocking_booking_statuses,
}
use shape_and_flow.Refund.Service.{root_booking_id}
use shape_and_flow.Refund.Histories.{Call, serve, serve-IsSound}
use shape_and_flow.Calendar.Rows.{OrganizationSettings, AppointmentRow, CalendarStore}
use shape_and_flow.Calendar.Reservation.{reserve}
use shape_and_flow.Calendar.Insertion.{ReserveInput}
use shape_and_flow.Calendar.Booked.{reserve-Kept}
use shape_and_flow.Desk.Rows.{Desk, books}
use shape_and_flow.Desk.Cancelling.{
  load_booking, CancelPlan, carry_out, CancelByBusinessInput, cancel_by_business,
}
use shape_and_flow.Desk.Deciding.{DecideRequestInput, decide_request}
use shape_and_flow.Desk.Moving.{
  RequestRescheduleInput, DecideRescheduleInput, movable, is_open_move, open_move,
  decide_reschedule,
}
use shape_and_flow.Desk.MoveDecided.{decide_reschedule-IsSafe}
use shape_and_flow.Desk.Recording.{settle_attendance, complete, mark_no_show, record_manual_payment}
use shape_and_flow.Desk.Safe.{
  IsSafe, guard_passed, load_booking-found, change_status-IsSafe, books-IsSound,
}
use shape_and_flow.Desk.Steps.{
  then_passed, carry_out-IsSafe, cancel_by_business-IsSafe, decide_request-IsSafe,
}

-- What may happen. A reservation comes with the tables that its choice of the employee has read. A customer's cancellation comes as the plan of an earlier read, and a customer's
-- request to move as its transaction, whose first checks any other call may have overtaken.
pub data DeskCall : Type 0 where
  reserves_slot : CalendarStore → ℕ → ReserveInput → DeskCall
  cancels : CancelPlan → DeskCall
  decides_request : DecideRequestInput → DeskCall
  calls_off : CancelByBusinessInput → DeskCall
  completes marks_no_show : ℕ → ℕ → DeskCall
  records_payment : ℕ → ℤ → DeskCall
  asks_move : ℕ → RequestRescheduleInput → DeskCall
  decides_move : ℕ → DecideRescheduleInput → DeskCall
  moves_money : Call → DeskCall

-- A move that was let through is one of the table.
pub move_allowed :
    (from to : BookingStatus) {A : Type 0} (next : Outcome A) {r : A}
    → (assert_transition (some from) to >> next) ≡ ok r
    → can_transition (some from) to ≡ true
unfolding assert_transition
move_allowed from to next h = elim (Bool-cases (can_transition (some from) to)) [
  | inl listed ↦ listed
  | inr barred ↦ absurd (cc (rw (barred, assert_transition) at h))
]

-- Attendance closes a confirmed booking only.
pub completed_from :
    (from : BookingStatus)
    → can_transition (some from) completed ≡ true
    → same_status from confirmed ≡ true
unfolding can_transition transitions
completed_from confirmed h = refl
completed_from pending_payment h = absurd (cc)
completed_from expiring h = absurd (cc)
completed_from expired h = absurd (cc)
completed_from payment_failed h = absurd (cc)
completed_from canceled_by_customer h = absurd (cc)
completed_from canceled_by_business h = absurd (cc)
completed_from completed h = absurd (cc)
completed_from no_show h = absurd (cc)

pub no_show_from :
    (from : BookingStatus)
    → can_transition (some from) no_show ≡ true
    → same_status from confirmed ≡ true
unfolding can_transition transitions
no_show_from confirmed h = refl
no_show_from pending_payment h = absurd (cc)
no_show_from expiring h = absurd (cc)
no_show_from expired h = absurd (cc)
no_show_from payment_failed h = absurd (cc)
no_show_from canceled_by_customer h = absurd (cc)
no_show_from canceled_by_business h = absurd (cc)
no_show_from completed h = absurd (cc)
no_show_from no_show h = absurd (cc)

module _ (s : Desk) (id : ℕ) (is_due : AppointmentRow → Bool) (t : Desk) (v : IsSafe s) where
  settled-IsSafe :
      (to : BookingStatus)
      → is_blocking to ≡ false
      → ((from : BookingStatus)
          → can_transition (some from) to ≡ true
          → same_status from confirmed ≡ true)
      → settle_attendance s id to is_due ≡ ok t
      → IsSafe t
  unfolding settle_attendance
  settled-IsSafe to over from h = elim (Chain-of (load_booking s id) _ h) [
    | chain booking hb h1 ↦
        let was_confirmed = from booking.status (move_allowed booking.status to _ h1) in
        let h2 = then_passed (assert_transition (some booking.status) to) h1 in
        let (due, h3) = guard_passed (is_due booking) invalid_status_transition h2 in
        subst IsSafe (ok_injective h3) (
          change_status-IsSafe s booking to (load_booking-found s id booking hb) was_confirmed over
            v)
  ]

complete-IsSafe :
    (s : Desk) (now id : ℕ) (t : Desk) → complete s now id ≡ ok t → IsSafe s → IsSafe t
unfolding complete is_blocking blocking_booking_statuses
complete-IsSafe s now id t h v =
    settled-IsSafe s id (λ b. leb b.span.end now) t v completed refl completed_from h

mark_no_show-IsSafe :
    (s : Desk) (now id : ℕ) (t : Desk) → mark_no_show s now id ≡ ok t → IsSafe s → IsSafe t
unfolding mark_no_show is_blocking blocking_booking_statuses
mark_no_show-IsSafe s now id t h v =
    settled-IsSafe s id (λ b. leb b.span.start now) t v no_show refl no_show_from h

record_manual_payment-IsSafe :
    (s : Desk) (id : ℕ) (cents : ℤ) (t : Desk)
    → record_manual_payment s id cents ≡ ok t
    → IsSafe s
    → IsSafe t
unfolding record_manual_payment
record_manual_payment-IsSafe s id cents t h v = elim (Chain-of (load_booking s id) _ h) [
  | chain booking hb h1 ↦
      let (real, h2) =
        guard_passed
          (not (same_status booking.status expired || same_status booking.status payment_failed))
          invalid_status_transition h1 in
      elim (Chain-of (from_cents cents booking.currency) _ h2) [
        | chain amount ha h3 ↦ elim (Chain-of (root_booking_id (books s) booking.id) _ h3) [
          | chain root hr h4 ↦ subst IsSafe (ok_injective h4) (record {
            calendar_kept = v.calendar_kept;
            ledger_sound = v.ledger_sound;
            one_open = v.one_open;
          })
        ]
      ]
]

open_move-IsSafe :
    (s : Desk) (now : ℕ) (input : RequestRescheduleInput) (r : ℕ × Desk)
    → open_move s now input ≡ ok r
    → IsSafe s
    → IsSafe r.1
unfolding open_move
open_move-IsSafe s now input r h v = elim (Chain-of (movable s now input.booking_id) _ h) [
  | chain booking hb h1 ↦
      let (alone, h2) =
        guard_passed (not (any (is_open_move booking.id) s.reschedule_requests))
          booking_not_reschedulable h1 in
      subst (λ (x : ℕ × Desk). IsSafe x.1) (ok_injective h2)
        (record {
          calendar_kept = v.calendar_kept;
          ledger_sound = v.ledger_sound;
          one_open = v.one_open;
        })
]

-- A call that throws has rolled its transaction back.
abbrev pub desk_after : {A : Type 0} → (A → Desk) → Desk → Outcome A → Desk
desk_after store s (ok a) = store a
desk_after store s (err e) = s

module _ (luxon : Luxon) (organization : OrganizationSettings) where
  unfoldable pub serve_desk : Desk → DeskCall → Desk
  unfolding reserve carry_out decide_request cancel_by_business complete mark_no_show
      record_manual_payment open_move decide_reschedule serve
  serve_desk s (reserves_slot seen now input) =
      desk_after (λ r. record s { calendar = r.1 }) s
        (reserve luxon organization now seen s.calendar input)
  serve_desk s (cancels plan) = desk_after (λ r. r.1) s (carry_out s plan)
  serve_desk s (decides_request input) = desk_after (λ t. t) s (decide_request s input)
  serve_desk s (calls_off input) = desk_after (λ r. r.1) s (cancel_by_business s input)
  serve_desk s (completes now id) = desk_after (λ t. t) s (complete s now id)
  serve_desk s (marks_no_show now id) = desk_after (λ t. t) s (mark_no_show s now id)
  serve_desk s (records_payment id cents) = desk_after (λ t. t) s (record_manual_payment s id cents)
  serve_desk s (asks_move now input) = desk_after (λ r. r.1) s (open_move s now input)
  serve_desk s (decides_move now input) =
      desk_after (λ r. r.1) s (decide_reschedule luxon organization now s input)
  serve_desk s (moves_money call) = record s { ledger = serve (books s) call }

  unfoldable pub serve_desk_all : Desk → List DeskCall → Desk
  unfolding serve_desk
  serve_desk_all s [] = s
  serve_desk_all s (c ∷ cs) = serve_desk_all (serve_desk s c) cs

desk_after-IsSafe :
    {A : Type 0} (store : A → Desk) (s : Desk) (o : Outcome A)
    → IsSafe s
    → ((a : A) → o ≡ ok a → IsSafe (store a))
    → IsSafe (desk_after store s o)
desk_after-IsSafe store s (ok a) v h = h a refl
desk_after-IsSafe store s (err e) v h = v

module _ (luxon : Luxon) (organization : OrganizationSettings) where
  serve_desk-IsSafe :
      (s : Desk) (c : DeskCall) → IsSafe s → IsSafe (serve_desk luxon organization s c)
  unfolding serve_desk
  serve_desk-IsSafe s (reserves_slot seen now input) v =
      desk_after-IsSafe (λ r. record s { calendar = r.1 }) s
        (reserve luxon organization now seen s.calendar input) v
        (λ r h. record {
          calendar_kept =
              reserve-Kept luxon organization now seen s.calendar input r h v.calendar_kept;
          ledger_sound = v.ledger_sound;
          one_open = v.one_open;
        })
  serve_desk-IsSafe s (cancels plan) v =
      desk_after-IsSafe (λ r. r.1) s (carry_out s plan) v (λ r h. carry_out-IsSafe s plan r h v)
  serve_desk-IsSafe s (decides_request input) v =
      desk_after-IsSafe (λ t. t) s (decide_request s input) v
        (λ t h. decide_request-IsSafe s input t h v)
  serve_desk-IsSafe s (calls_off input) v =
      desk_after-IsSafe (λ r. r.1) s (cancel_by_business s input) v
        (λ r h. cancel_by_business-IsSafe s input r h v)
  serve_desk-IsSafe s (completes now id) v =
      desk_after-IsSafe (λ t. t) s (complete s now id) v (λ t h. complete-IsSafe s now id t h v)
  serve_desk-IsSafe s (marks_no_show now id) v =
      desk_after-IsSafe (λ t. t) s (mark_no_show s now id) v
        (λ t h. mark_no_show-IsSafe s now id t h v)
  serve_desk-IsSafe s (records_payment id cents) v =
      desk_after-IsSafe (λ t. t) s (record_manual_payment s id cents) v
        (λ t h. record_manual_payment-IsSafe s id cents t h v)
  serve_desk-IsSafe s (asks_move now input) v =
      desk_after-IsSafe (λ r. r.1) s (open_move s now input) v
        (λ r h. open_move-IsSafe s now input r h v)
  serve_desk-IsSafe s (decides_move now input) v =
      desk_after-IsSafe (λ r. r.1) s (decide_reschedule luxon organization now s input) v
        (λ r h. decide_reschedule-IsSafe luxon organization now s input r h v)
  serve_desk-IsSafe s (moves_money call) v = record {
    calendar_kept = v.calendar_kept;
    ledger_sound = serve-IsSound (books s) call (books-IsSound s v.ledger_sound);
    one_open = v.one_open;
  }

-- From a safe desk, whatever reservations, cancellations, moves, decisions, attendance, payments and
-- refund calls come, in whatever order, with settlements of refunds never two at once and each approval
-- of a move as one step, and whichever of them throw, the desk is safe again: no two blocking bookings
-- of an employee overlap, the bookings meet their checks, the ledger is sound, so that no payment is
-- refunded beyond its charge, and of each booking one cancellation request at most is open.
pub serve_desk_all-IsSafe :
    (luxon : Luxon) (organization : OrganizationSettings) (s : Desk) (cs : List DeskCall)
    → IsSafe s
    → IsSafe (serve_desk_all luxon organization s cs)
unfolding serve_desk_all
serve_desk_all-IsSafe luxon organization s [] v = v
serve_desk_all-IsSafe luxon organization s (c ∷ cs) v =
    serve_desk_all-IsSafe luxon organization (serve_desk luxon organization s c) cs
      (serve_desk-IsSafe luxon organization s c v)
