-- ===== src/Examples/Desks.antt =====
-- The cancellation of what was booked.
use shape_and_flow.Base.{
  ◌≡◌, refl, true, false, none, some, List, [], ◌∷◌, ok, err, arith, request_already_decided, max,
  min,
}
use shape_and_flow.Base.Text.{text_eqb}
use shape_and_flow.Base.Int.{pos, ◌+ℤ◌, ◌-ℤ◌}
use shape_and_flow.Booking.Status.{confirmed, canceled_by_customer, canceled_by_business}
use shape_and_flow.Refund.Store.{Store, refund_requested, pending, sum_refunds}
use shape_and_flow.Refund.Service.{
  cumulative_target, root_booking_id, lock_payment, reserve_in_transaction,
}
use shape_and_flow.Refund.Target.{committed, reserve_in_transaction-target}
use shape_and_flow.Refund.Histories.{asks_refund}
use shape_and_flow.Calendar.Rows.{canceled_event}
use shape_and_flow.Calendar.Writes.{clashes, is_excluded, meets_checks}
use shape_and_flow.Desk.Rows.{CancellationRequest, undecided, approved, Desk, decided, books}
use shape_and_flow.Desk.Cancelling.{CancelByBusinessInput, at_once, cancel_by_business}
use shape_and_flow.Desk.Deciding.{DecideRequestInput, decide_request}
use shape_and_flow.Desk.Safe.{IsSafe}
use shape_and_flow.Desk.Histories.{
  DeskCall, reserves_slot, cancels, decides_request, completes, records_payment, moves_money,
  serve_desk_all, serve_desk_all-IsSafe,
}
use shape_and_flow.Desk.Rights.{cancel_by_business-unprivileged, decide_request-unprivileged}
use shape_and_flow.Desk.Answered.{decide_request-final}
use shape_and_flow.Desk.PaidBack.{PaysBack, decide_request-PaysBack}
use shape_and_flow.Examples.Calendar.{at_time, one_month, shop}
use shape_and_flow.Examples.Refunds.{payment, paid_store, paid_store-IsSound}
use shape_and_flow.Examples.Reservations.{studio, at_nine, tables, asked}

-- A request that waits, of which a thousand cents are suggested to be kept.
abbrev waiting : CancellationRequest
waiting = record {
  id = 20;
  booking_id = 1;
  suggested_retained_cents = pos 1000;
  decision = undecided;
  retained_cents = none;
  refund_id = none;
}

abbrev pub desk : Desk
desk = record {
  calendar = tables;
  ledger = paid_store;
  manual_payments = [];
  requests = waiting ∷ [];
  reschedule_requests = [];
  notices = [];
  next_request = 21;
}

pub desk-IsSafe : IsSafe desk
unfolding meets_checks is_excluded clashes
desk-IsSafe = record {
  calendar_kept = ((refl, tt), (refl, tt));
  ledger_sound = paid_store-IsSound;
  one_open = (refl, tt);
}

abbrev yes_to_it : DecideRequestInput
yes_to_it = record {
  request_id = 20;
  approves = true;
  retained_amount_cents = none;
  may_issue_refunds = true;
}

abbrev calls : List DeskCall
calls =
    reserves_slot tables shop.now asked
    ∷ records_payment 1 (pos 500)
    ∷ decides_request yes_to_it
    ∷ cancels (at_once at_nine (record { amount_cents = pos 5000; currency = payment.currency }))
    ∷ moves_money (asks_refund 1 (pos 300))
    ∷ completes (at_time 6 0 0) 11
    ∷ []

serve_desk_all-IsSafe_example : IsSafe (serve_desk_all one_month studio desk calls)
serve_desk_all-IsSafe_example = serve_desk_all-IsSafe one_month studio desk calls desk-IsSafe

-- What is left when four thousand of five thousand cents go back.
abbrev paid_part : Store
paid_part = record paid_store {
  bookings = record { id = 1; financial_root = none } ∷ [];
  refunds =
      record {
        id = 3;
        booking_id = 1;
        payment_id = 2;
        amount_cents = 4000;
        status = pending;
        idempotency_key = 4;
        stripe_refund_id = none;
        settled_at = none;
      }
      ∷ [];
  outbox = refund_requested 3 ∷ [];
  next_id = 5;
}

target_run :
    reserve_in_transaction paid_store
      (record { booking_id = 1; amount = cumulative_target (pos 4000); lenient = true })
    ≡ ok (
      record {
        refund_id = some 3;
        additional_amount_cents = pos 4000;
        refundable_amount_cents = pos 5000;
      },
      paid_part,
    )
unfolding reserve_in_transaction text_eqb ◌+ℤ◌ ◌-ℤ◌
target_run = refl

reserve_in_transaction-target_example :
    committed paid_part payment ≡ max (committed paid_store payment) (min 4000 5000)
unfolding root_booking_id lock_payment sum_refunds
reserve_in_transaction-target_example =
    reserve_in_transaction-target paid_store 1 4000 1 true payment
      (
        record {
          refund_id = some 3;
          additional_amount_cents = pos 4000;
          refundable_amount_cents = pos 5000;
        },
        paid_part,
      )
      refl refl (omega arith) target_run

abbrev decided_desk : Desk
decided_desk = record desk {
  calendar = record tables {
    appointments = record at_nine { status = canceled_by_customer } ∷ [];
    history =
        record { booking_id = 1; from_status = some confirmed; to_status = canceled_by_customer }
        ∷ [];
    outbox = canceled_event 1 (some 3) ∷ [];
  };
  ledger = paid_part;
  requests =
      record waiting { decision = approved; retained_cents = some (pos 1000); refund_id = some 3 }
      ∷ [];
  notices = decided 20 true (pos 1000) (pos 4000) ∷ [];
}

decide_run : decide_request desk yes_to_it ≡ ok decided_desk
unfolding decide_request text_eqb ◌+ℤ◌ ◌-ℤ◌
decide_run = refl

decide_request-PaysBack_example : PaysBack desk yes_to_it waiting payment decided_desk
unfolding root_booking_id lock_payment sum_refunds shape_and_flow.Desk.Deciding.find_request
decide_request-PaysBack_example =
    decide_request-PaysBack desk yes_to_it decided_desk waiting 1 payment decide_run refl refl refl
      refl (omega arith)

decide_request-final_example :
    decide_request decided_desk (record yes_to_it { approves = false })
    ≡ err request_already_decided
decide_request-final_example =
    decide_request-final desk yes_to_it (record yes_to_it { approves = false }) decided_desk
      decide_run refl

-- A refusal of the request needs no rights.
abbrev no_to_it : DecideRequestInput
no_to_it = record yes_to_it { approves = false; may_issue_refunds = false }

abbrev declined_desk : Desk
declined_desk = record desk {
  requests = record waiting { decision = shape_and_flow.Desk.Rows.rejected } ∷ [];
  notices = decided 20 false (pos 0) (pos 0) ∷ [];
}

decline_run : decide_request desk no_to_it ≡ ok declined_desk
unfolding decide_request text_eqb ◌+ℤ◌ ◌-ℤ◌
decline_run = refl

decide_request-unprivileged_example : declined_desk.ledger.refunds ≡ desk.ledger.refunds
decide_request-unprivileged_example =
    decide_request-unprivileged desk no_to_it declined_desk refl decline_run

abbrev nothing_back : CancelByBusinessInput
nothing_back = record {
  booking_id = 1;
  may_issue_refunds = false;
  refund_amount_cents = some (pos 0);
}

abbrev called_off_desk : Desk
called_off_desk = record desk {
  calendar = record tables {
    appointments = record at_nine { status = canceled_by_business } ∷ [];
    history =
        record { booking_id = 1; from_status = some confirmed; to_status = canceled_by_business }
        ∷ [];
    outbox = canceled_event 1 none ∷ [];
  };
  requests = record waiting { decision = approved } ∷ [];
}

call_off_run : cancel_by_business desk nothing_back ≡ ok (none, called_off_desk)
unfolding cancel_by_business text_eqb ◌+ℤ◌ ◌-ℤ◌
call_off_run = refl

cancel_by_business-unprivileged_example : called_off_desk.ledger.refunds ≡ desk.ledger.refunds
cancel_by_business-unprivileged_example =
    cancel_by_business-unprivileged desk nothing_back (none, called_off_desk) refl call_off_run
