-- ===== src/Occupancy/Calls.antt =====
-- Every call at the desk is a step of the abstract view.
use shape_and_flow.Base.{◌≡◌, true, false, Outcome, ok, err, ErrorCode}
use shape_and_flow.LocalTime.{Luxon}
use shape_and_flow.Calendar.Rows.{OrganizationSettings}
use shape_and_flow.Calendar.Reservation.{reserve}
use shape_and_flow.Desk.Rows.{CancellationRequest, Desk}
use shape_and_flow.Desk.Cancelling.{at_once, late, carry_out, cancel_by_business}
use shape_and_flow.Desk.Deciding.{DecideRequestInput, find_request, decide_request}
use shape_and_flow.Desk.Moving.{decide_reschedule}
use shape_and_flow.Desk.Recording.{complete, mark_no_show}
use shape_and_flow.Desk.Histories.{
  DeskCall, reserves_slot, cancels, decides_request, calls_off, completes, marks_no_show,
  records_payment, asks_move, decides_move, moves_money,
}
use shape_and_flow.Occupancy.Refines.{Occupancy, Stays, Takes, Frees}
use shape_and_flow.Occupancy.Shifted.{DecidedMove}

-- What is expected of an operation: if it throws nothing changes, and if it returns the change is the
-- one that is named.
pub data Step {A : Type 0} (o : Outcome A) (change : Occupancy → Occupancy → Type 0)
    (before after : Occupancy) : Type 0 where
  refused : (e : ErrorCode) → o ≡ err e → Stays before after → Step o change before after
  returned : (a : A) → o ≡ ok a → change before after → Step o change before after

-- The change that a decision on a cancellation makes.
pub data Decided (s : Desk) (input : DecideRequestInput) (before after : Occupancy) : Type 0 where
  kept : input.approves ≡ false → Stays before after → Decided s input before after
  freed :
      (request : CancellationRequest)
      → input.approves ≡ true
      → find_request s input.request_id ≡ ok request
      → Frees s.calendar.appointments request.booking_id before after
      → Decided s input before after

module _ (luxon : Luxon) (organization : OrganizationSettings) where
  -- The abstract step of each call.
  abbrev pub Expected : Desk → DeskCall → Occupancy → Occupancy → Type 0
  Expected s (reserves_slot seen now input) =
      Step (reserve luxon organization now seen s.calendar input)
        (Takes input.employee_id input.starts_at)
  Expected s (cancels (at_once booking paid)) =
      Step (carry_out s (at_once booking paid)) (Frees s.calendar.appointments booking.id)
  Expected s (cancels (late booking suggested)) = Stays
  Expected s (decides_request input) = Step (decide_request s input) (Decided s input)
  Expected s (calls_off input) =
      Step (cancel_by_business s input) (Frees s.calendar.appointments input.booking_id)
  Expected s (completes now id) = Step (complete s now id) (Frees s.calendar.appointments id)
  Expected s (marks_no_show now id) =
      Step (mark_no_show s now id) (Frees s.calendar.appointments id)
  Expected s (records_payment id cents) = Stays
  Expected s (asks_move now input) = Stays
  Expected s (decides_move now input) =
      Step (decide_reschedule luxon organization now s input)
        (λ before after. DecidedMove s input after)
  Expected s (moves_money call) = Stays
