-- ===== src/Examples/Moves.antt =====
-- Ben's booking is moved from nine to ten.
use shape_and_flow.Base.{◌≡◌, refl, true, none, some, [], ◌∷◌, ok}
use shape_and_flow.Base.Text.{text_eqb}
use shape_and_flow.Calendar.Rows.{AppointmentRow}
use shape_and_flow.Desk.Rows.{RescheduleRequest, undecided, Desk}
use shape_and_flow.Desk.Paid.{paid_total}
use shape_and_flow.Desk.Moving.{
  DecideRescheduleInput, lock_move, replacement, finish_move, decide_reschedule,
}
use shape_and_flow.Desk.MoveDecided.{
  ApprovedMove, decide_reschedule-ApprovedMove, decide_reschedule-paid_total,
}
use shape_and_flow.Examples.Calendar.{at_time, one_month, ben, shop}
use shape_and_flow.Examples.Refunds.{payment}
use shape_and_flow.Examples.Reservations.{studio, at_nine, tables, span_of}
use shape_and_flow.Examples.Desks.{desk}

abbrev to_ten : RescheduleRequest
to_ten = record {
  id = 30;
  booking_id = 1;
  requested_starts_at = at_time 5 10 0;
  requested_employee_id = none;
  decision = undecided;
  resulting_booking_id = none;
}

abbrev asked_to_move : Desk
asked_to_move = record desk { reschedule_requests = to_ten ∷ [] }

abbrev yes_move : DecideRescheduleInput
yes_move = record { request_id = 30; approves = true }

abbrev at_ten : AppointmentRow
at_ten = replacement at_nine 10 ben.employee_id (at_time 5 10 0) (span_of 10 0 45)

abbrev moved_desk : Desk
moved_desk =
    finish_move
      (record asked_to_move {
        calendar = record tables { appointments = at_ten ∷ at_nine ∷ []; next_id = 11 };
      })
      to_ten at_nine at_ten

move_run :
    decide_reschedule one_month studio shop.now asked_to_move yes_move ≡ ok (some 10, moved_desk)
unfolding decide_reschedule text_eqb shape_and_flow.Interval.contains
move_run = refl

decide_reschedule-ApprovedMove_example : ApprovedMove asked_to_move yes_move (some 10, moved_desk)
decide_reschedule-ApprovedMove_example =
    decide_reschedule-ApprovedMove one_month studio shop.now asked_to_move yes_move
      (some 10, moved_desk) move_run refl

decide_reschedule-paid_total_example :
    paid_total moved_desk 10 payment.currency ≡ paid_total asked_to_move 1 payment.currency
unfolding lock_move
decide_reschedule-paid_total_example =
    decide_reschedule-paid_total one_month studio shop.now asked_to_move yes_move 10 moved_desk
      to_ten payment.currency move_run refl refl
