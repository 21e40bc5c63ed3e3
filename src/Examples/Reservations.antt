-- ===== src/Examples/Reservations.antt =====
-- The shop's tables with one booking of Ben's, and a reservation beside it.
use shape_and_flow.Base.{
  ℕ, zero, suc, ◌+◌, ◌*◌, ◌≤◌, ◌≡◌, refl, sym, ap, ◌∙◌, true, false, none, some, [], ◌∷◌, ok,
  ok_injective, arith,
}
use shape_and_flow.Base.Text.{Text, text_eqb}
use shape_and_flow.Base.Int.{pos}
use shape_and_flow.Interval.{Interval}
use shape_and_flow.LocalTime.{monday, instant_to_local_date, add_local_days}
use shape_and_flow.Availability.Types.{AvailabilitySnapshot}
use shape_and_flow.Booking.Status.{confirmed}
use shape_and_flow.Calendar.Rows.{
  OrganizationSettings, AppointmentRow, CalendarStore, confirmed_event,
}
use shape_and_flow.Calendar.Snapshot.{load_for_slot, subtract_local_days, utc_midnight}
use shape_and_flow.Calendar.Reservation.{reserve}
use shape_and_flow.Calendar.Insertion.{ReserveInput, ReserveResult, office}
use shape_and_flow.Calendar.Padding.{LocalDay}
use shape_and_flow.Calendar.Clear.{IsClear, load_for_slot-IsClear}
use shape_and_flow.Calendar.Booked.{Reserved, reserve-Reserved}
use shape_and_flow.Examples.Calendar.{at_time, day_ms, january, one_month, zone, ben, shop}
use shape_and_flow.Examples.Refunds.{payment}

abbrev pub studio : OrganizationSettings
studio = record { zone = zone; availability = shop.settings; reservation_ttl_minutes = 15 }

abbrev pub span_of : ℕ → ℕ → ℕ → Interval
span_of hour minute length = record {
  start = at_time 5 hour minute;
  end = at_time 5 hour (minute + length);
}

-- Ben's booking at nine, paid in full.
abbrev pub at_nine : AppointmentRow
at_nine = record {
  id = 1;
  employee_id = ben.employee_id;
  customer_id = 7;
  service = shop.service;
  span = span_of 9 0 30;
  block = span_of 9 0 45;
  price_cents = pos 5000;
  currency = payment.currency;
  status = confirmed;
  expires_at = none;
  idempotency_key_id = none;
  rescheduled_from = none;
  financial_root = none;
}

abbrev pub tables : CalendarStore
tables = record {
  services =
      record {
        snapshot = shop.service;
        price_cents = pos 5000;
        currency = payment.currency;
        is_archived = false;
        is_bookable_online = true;
      }
      ∷ [];
  employees =
      record {
        id = ben.employee_id;
        display_order = 1;
        is_archived = false;
        is_bookable_online = true;
      }
      ∷ [];
  assignments =
      record {
        employee_id = ben.employee_id;
        service_id = shop.service.id;
        price_override_cents = some (pos 4500);
      }
      ∷ [];
  working_hours =
      record {
        employee_id = ben.employee_id;
        hours = record { weekday = monday; start_minute = 540; end_minute = 660; breaks = [] };
      }
      ∷ [];
  exceptions = [];
  time_off = [];
  closed_days = [];
  blocked_times = [];
  appointments = at_nine ∷ [];
  customers = [];
  keys = [];
  history = [];
  tokens = [];
  outbox = [];
  next_id = 10;
}

abbrev loaded : AvailabilitySnapshot
loaded = record shop {
  employees =
      record {
        employee_id = ben.employee_id;
        working_hours =
            record { weekday = monday; start_minute = 540; end_minute = 660; breaks = [] } ∷ [];
        exceptions = [];
        time_off_dates = [];
        busy = span_of 9 0 45 ∷ [];
      }
      ∷ [];
}

loaded_run :
    load_for_slot one_month studio shop.now tables shop.service.id ben.employee_id (at_time 5 10 0)
    ≡ ok loaded
unfolding load_for_slot text_eqb
loaded_run = refl

-- The dates about the fifth.
day_of :
    (a : Text) (x : ℕ) (d : Text) (m : ℕ)
    → utc_midnight one_month a ≡ ok x
    → ok a ≡ ok d
    → utc_midnight one_month d ≡ ok m
    → m ≡ x
day_of a x d m hx hd hm =
    ok_injective (sym hm ∙ ap (utc_midnight one_month) (sym (ok_injective hd)) ∙ hx)

fifth_before :
    (n : ℕ) (d : Text) (m : ℕ)
    → n ≤ 2
    → subtract_local_days one_month (january 5) n studio.zone ≡ ok d
    → utc_midnight one_month d ≡ ok m
    → m + n * day_ms ≡ at_time 5 0 0
unfolding subtract_local_days utc_midnight
fifth_before zero d m le hd hm =
    let e = day_of (january 5) (at_time 5 0 0) d m refl hd hm in omega (arith, e)
fifth_before (suc zero) d m le hd hm =
    let e = day_of (january 4) (at_time 4 0 0) d m refl hd hm in omega (arith, e)
fifth_before (suc (suc zero)) d m le hd hm =
    let e = day_of (january 3) (at_time 3 0 0) d m refl hd hm in omega (arith, e)
fifth_before (suc (suc (suc n))) d m le hd hm = absurd (omega arith)

fifth_after :
    (n : ℕ) (d : Text) (m : ℕ)
    → n ≤ 2
    → add_local_days one_month (january 5) n studio.zone ≡ ok d
    → utc_midnight one_month d ≡ ok m
    → m ≡ at_time 5 0 0 + n * day_ms
unfolding add_local_days utc_midnight
fifth_after zero d m le hd hm =
    let e = day_of (january 5) (at_time 5 0 0) d m refl hd hm in omega (arith, e)
fifth_after (suc zero) d m le hd hm =
    let e = day_of (january 6) (at_time 6 0 0) d m refl hd hm in omega (arith, e)
fifth_after (suc (suc zero)) d m le hd hm =
    let e = day_of (january 7) (at_time 7 0 0) d m refl hd hm in omega (arith, e)
fifth_after (suc (suc (suc n))) d m le hd hm = absurd (omega arith)

the_fifth : LocalDay one_month studio.zone (at_time 5 10 0)
unfolding instant_to_local_date utc_midnight
the_fifth = record {
  date = january 5;
  date_eq = refl;
  midnight = at_time 5 0 0;
  midnight_eq = refl;
  not_before = omega arith;
  not_after = omega arith;
  days_before = fifth_before;
  days_after = fifth_after;
}

load_for_slot-IsClear_example : IsClear tables ben.employee_id (span_of 10 0 45)
unfolding load_for_slot text_eqb shape_and_flow.Availability.Engine.is_slot_bookable
    shape_and_flow.Interval.contains shape_and_flow.Calendar.Snapshot.window_of
    shape_and_flow.Availability.Office.as_office_snapshot
    shape_and_flow.LocalTime.instant_to_local_date shape_and_flow.Availability.Candidates.block_of
load_for_slot-IsClear_example =
    load_for_slot-IsClear one_month studio shop.now tables shop.service.id ben.employee_id
      (at_time 5 10 0) office loaded (span_of 10 0 45) the_fifth loaded_run refl (omega arith)
      (omega arith, omega arith, omega arith) refl

abbrev pub asked : ReserveInput
asked = record {
  service_id = shop.service.id;
  employee_id = some ben.employee_id;
  starts_at = at_time 5 10 0;
  email_normalized = b'x' ∷ [];
  locale = 0;
  actor = office;
  idempotency_key = none;
}

-- The new booking at ten.
abbrev at_ten : AppointmentRow
at_ten = record at_nine {
  id = 11;
  customer_id = 10;
  span = span_of 10 0 30;
  block = span_of 10 0 45;
  price_cents = pos 4500;
}

abbrev booked : CalendarStore
booked = record tables {
  appointments = at_ten ∷ at_nine ∷ [];
  customers = record { id = 10; email_normalized = b'x' ∷ []; locale = 0 } ∷ [];
  history = record { booking_id = 11; from_status = none; to_status = confirmed } ∷ [];
  tokens =
      record {
        booking_id = 11;
        expires_at = at_time 5 10 30 + shape_and_flow.Booking.Saga.grace_ms;
        is_revoked = false;
      }
      ∷ [];
  outbox = confirmed_event 11 ∷ [];
  next_id = 12;
}

abbrev reservation : ReserveResult
reservation = record {
  booking = at_ten;
  price = record { amount_cents = pos 4500; currency = payment.currency };
  has_token = true;
}

reserve_run : reserve one_month studio shop.now tables tables asked ≡ ok (reservation, booked)
unfolding reserve text_eqb shape_and_flow.Interval.contains
    shape_and_flow.Availability.Office.as_office_snapshot
reserve_run = refl

reserve-Reserved_example :
    Reserved one_month studio shop.now tables asked at_ten reservation.price booked
reserve-Reserved_example =
    reserve-Reserved one_month studio shop.now tables tables asked (reservation, booked) reserve_run
