-- ===== src/Desk/Safe.antt =====
-- What every step at the desk keeps true.
use shape_and_flow.Base.{
  ℕ, ◌≡◌, refl, sym, ap, subst, inl, inr, Bool, true, false, ◌&&◌, ◌||◌, some, List, [], ◌∷◌, any,
  arith, Bool-cases, Option-cases, ◌==◌, guard, Outcome, ok, ErrorCode, booking_not_cancellable,
  not, Chain-of, chain, ok_injective, ◌∙◌, ◌>>◌,
}
use shape_and_flow.Base.Text.{Text, text_eqb}
use shape_and_flow.Base.Int.{pos, ltb_ℤ}
use shape_and_flow.Interval.{Interval}
use shape_and_flow.Booking.Status.{
  BookingStatus, is_blocking, same_status, confirmed, blocking_booking_statuses,
}
use shape_and_flow.Refund.Store.{Store}
use shape_and_flow.Refund.Ledger.{IsSound}
use shape_and_flow.Refund.Service.{
  ReserveRefundInput, RefundAmount, RefundReservationResult, reserve_in_transaction,
}
use shape_and_flow.Refund.Steps.{reserve_in_transaction-IsSound}
use shape_and_flow.Calendar.Rows.{AppointmentRow}
use shape_and_flow.Calendar.Writes.{
  clashes, is_excluded, meets_checks, find_appointment, update_appointments, set_status,
}
use shape_and_flow.Calendar.Kept.{Meets, Kept}
use shape_and_flow.Desk.Rows.{CancellationRequest, is_open, Desk, books}
use shape_and_flow.Desk.Cancelling.{
  load_booking, lock_confirmed, change_status, reserve_refund, is_open_for,
}

-- Of each booking one request at most waits for an answer.
abbrev pub OneOpen : List CancellationRequest → Type 0
OneOpen [] = Unit
OneOpen (r ∷ rs) = ((is_open r.decision && any (is_open_for r.booking_id) rs) ≡ false) × OneOpen rs

pub record IsSafe (s : Desk) : Type 0 where
  pub calendar_kept : Kept s.calendar.appointments
  pub ledger_sound : IsSound s.ledger
  pub one_open : OneOpen s.requests

-- A booking that is over waits for nothing.
over-Meets :
    (b : AppointmentRow) (to : BookingStatus)
    → same_status b.status confirmed ≡ true
    → is_blocking to ≡ false
    → Meets b
    → Meets (set_status to b)
unfolding meets_checks is_blocking blocking_booking_statuses
over-Meets b to c o m = ground arith

clash-over :
    (to : BookingStatus) (e : Text) (block : Interval) (a : AppointmentRow)
    → is_blocking to ≡ false
    → clashes e block (set_status to a) ≡ false
unfolding clashes
clash-over to e block a o = elim (Bool-cases (text_eqb a.employee_id e)) [
  | inl own ↦ rw (own, o, clashes) refl
  | inr other ↦ rw (other, clashes) refl
]

no_clash : (p q : Bool) → (p || q) ≡ false → (p ≡ false) × (q ≡ false)
no_clash true q h = absurd (cc)
no_clash false q h = (refl, h)

clashes-over :
    (id : ℕ) (to : BookingStatus) (e : Text) (block : Interval) (rows : List AppointmentRow)
    → is_blocking to ≡ false
    → any (clashes e block) rows ≡ false
    → any (clashes e block) (update_appointments id (set_status to) rows) ≡ false
unfolding update_appointments
clashes-over id to e block [] o h = refl
clashes-over id to e block (a ∷ rows) o h =
    let (here, later) = no_clash (clashes e block a) (any (clashes e block) rows) h in
    elim (Bool-cases (a.id == id)) [
      | inl hit ↦ rw (hit, update_appointments, clash-over to e block a o) later
      | inr miss ↦ rw (miss, update_appointments, here) (clashes-over id to e block rows o later)
    ]

is_excluded-over :
    (id : ℕ) (to : BookingStatus) (a : AppointmentRow) (rows : List AppointmentRow)
    → is_blocking to ≡ false
    → is_excluded a rows ≡ false
    → is_excluded a (update_appointments id (set_status to) rows) ≡ false
unfolding is_excluded
is_excluded-over id to a rows o h = ground (arith, clashes-over id to a.employee_id a.block rows o)

pub update_appointments-Kept :
    (id : ℕ) (to : BookingStatus) (b : AppointmentRow) (rows : List AppointmentRow)
    → find_appointment id rows ≡ some b
    → same_status b.status confirmed ≡ true
    → is_blocking to ≡ false
    → Kept rows
    → Kept (update_appointments id (set_status to) rows)
unfolding update_appointments is_excluded
update_appointments-Kept id to b [] f c o k = k
update_appointments-Kept id to b (a ∷ rows) f c o k = elim (Bool-cases (a.id == id)) [
  | inl hit ↦
      let same : a ≡ b = ground arith in
      rw (hit, update_appointments)
        (
          (rw (o) refl, k.0.1),
          (
            over-Meets a to (subst (λ x. same_status x.status confirmed ≡ true) (sym same) c) o
                k.1.0,
            k.1.1,
          ),
        )
  | inr miss ↦
      let rest = update_appointments-Kept id to b rows (rw (miss) at f) c o (k.0.1, k.1.1) in
      rw (miss, update_appointments)
        ((is_excluded-over id to a rows o k.0.0, rest.0), (k.1.0, rest.1))
]

find-id :
    (id : ℕ) (rows : List AppointmentRow) (b : AppointmentRow)
    → find_appointment id rows ≡ some b
    → b.id ≡ id
find-id id [] b h = cc
find-id id (a ∷ rows) b h = elim (Bool-cases (a.id == id)) [
  | inl hit ↦ ground arith
  | inr miss ↦ find-id id rows b (rw (miss) at h)
]

-- The booking that was found under its id.
pub load_booking-found :
    (s : Desk) (id : ℕ) (b : AppointmentRow)
    → load_booking s id ≡ ok b
    → find_appointment b.id s.calendar.appointments ≡ some b
unfolding load_booking
load_booking-found s id b h = elim (Option-cases (find_appointment id s.calendar.appointments)) [
  | inl missing ↦ absurd (cc (rw (missing, load_booking) at h))
  | inr (row, found) ↦
      let same : row ≡ b = ok_injective (rw (found, load_booking) at h) in
      let own : find_appointment id s.calendar.appointments ≡ some b = found ∙ ap some same in
      subst (λ i. find_appointment i s.calendar.appointments ≡ some b)
        (sym (find-id id s.calendar.appointments b own)) own
]

pub load_booking-id :
    (s : Desk) (id : ℕ) (b : AppointmentRow) → load_booking s id ≡ ok b → b.id ≡ id
unfolding load_booking
load_booking-id s id b h = elim (Option-cases (find_appointment id s.calendar.appointments)) [
  | inl missing ↦ absurd (cc (rw (missing, load_booking) at h))
  | inr (row, found) ↦
      find-id id s.calendar.appointments b
        (found ∙ ap some (ok_injective (rw (found, load_booking) at h)))
]

-- A test that let through.
pub guard_passed :
    (b : Bool) (e : ErrorCode) {A : Type 0} {next : Outcome A} {r : A}
    → (guard b e >> next) ≡ ok r
    → (b ≡ true) × (next ≡ ok r)
guard_passed true e h = (refl, h)
guard_passed false e h = absurd (cc)

pub lock_confirmed-found :
    (s : Desk) (id : ℕ) (b : AppointmentRow)
    → lock_confirmed s id ≡ ok b
    → (find_appointment b.id s.calendar.appointments ≡ some b)
      × (same_status b.status confirmed ≡ true)
unfolding lock_confirmed
lock_confirmed-found s id b h = elim (Chain-of (load_booking s id) _ h) [
  | chain row hr h1 ↦
      let (is_confirmed, h2) =
        guard_passed (same_status row.status confirmed) booking_not_cancellable h1 in
      let same : row ≡ b = ok_injective h2 in
      (
        load_booking-found s id b (hr ∙ ap ok same),
        subst (λ x. same_status x.status confirmed ≡ true) same is_confirmed,
      )
]

pub change_status-IsSafe :
    (s : Desk) (b : AppointmentRow) (to : BookingStatus)
    → find_appointment b.id s.calendar.appointments ≡ some b
    → same_status b.status confirmed ≡ true
    → is_blocking to ≡ false
    → IsSafe s
    → IsSafe (change_status s b to)
unfolding change_status
change_status-IsSafe s b to f c o v = record {
  calendar_kept = update_appointments-Kept b.id to b s.calendar.appointments f c o v.calendar_kept;
  ledger_sound = v.ledger_sound;
  one_open = v.one_open;
}

pub books-IsSound : (s : Desk) → IsSound s.ledger → IsSound (books s)
books-IsSound s v = record {
  fresh = v.fresh;
  distinct = v.distinct;
  payments_distinct = v.payments_distinct;
  covered = v.covered;
}

-- What a refund that was reserved is: one of the ledger, and within the rights of who asked for it.
pub data Refunds (s : Desk) (input : ReserveRefundInput) (may : Bool)
    (r : RefundReservationResult × Desk) : Type 0 where
  refunds :
      (q : RefundReservationResult × Store)
      → reserve_in_transaction (books s) input ≡ ok q
      → (ltb_ℤ (pos 0) q.0.additional_amount_cents && not may) ≡ false
      → r ≡ (q.0, record s { ledger = q.1 })
      → Refunds s input may r

pub reserve_refund-Refunds :
    (s : Desk) (id : ℕ) (amount : RefundAmount) (lenient may : Bool)
    (r : RefundReservationResult × Desk)
    → reserve_refund s id amount lenient may ≡ ok r
    → Refunds s (record { booking_id = id; amount = amount; lenient = lenient }) may r
unfolding reserve_refund
reserve_refund-Refunds s id amount lenient may r h =
    elim (Chain-of
      (reserve_in_transaction (books s)
        (record { booking_id = id; amount = amount; lenient = lenient }))
      _ h) [
        | chain q hq h1 ↦ elim (Bool-cases (ltb_ℤ (pos 0) q.0.additional_amount_cents && not may)) [
          | inl refused ↦ absurd (cc (rw (refused) at h1))
          | inr allowed ↦ refunds q hq allowed (sym (ok_injective (rw (allowed) at h1)))
        ]
      ]

pub reserve_refund-IsSafe :
    (s : Desk) (id : ℕ) (amount : RefundAmount) (lenient may : Bool)
    (r : RefundReservationResult × Desk)
    → reserve_refund s id amount lenient may ≡ ok r
    → IsSafe s
    → IsSafe r.1
reserve_refund-IsSafe s id amount lenient may r h v =
    elim (reserve_refund-Refunds s id amount lenient may r h) [
      | refunds q hq _ e ↦
          subst (λ (x : RefundReservationResult × Desk). IsSafe x.1) (sym e)
            (record {
              calendar_kept = v.calendar_kept;
              ledger_sound =
                  reserve_in_transaction-IsSound (books s) _ q (books-IsSound s v.ledger_sound) hq;
              one_open = v.one_open;
            })
    ]
