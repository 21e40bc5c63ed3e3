-- ===== src/Examples/Calendar.antt =====
-- A calendar of one January, in a zone without offset changes, and a shop of two employees.
use shape_and_flow.Base.{ℕ, ◌+◌, ◌-◌, ◌*◌, ◌/◌, ◌%◌, true, List, [], ◌∷◌}
use shape_and_flow.Base.Text.{Text}
use shape_and_flow.Base.Int.{pos}
use shape_and_flow.LocalTime.{Luxon, monday}
use shape_and_flow.Availability.Types.{EmployeeSnapshot, AvailabilitySnapshot, Segment}

abbrev pub day_ms : ℕ
day_ms = 86400000

abbrev pub at_time : ℕ → ℕ → ℕ → ℕ
at_time day hour minute = (day - 1) * day_ms + hour * 3600000 + minute * 60000

-- 2026-01-dd.
abbrev pub january : ℕ → Text
january day =
    b'2'
    ∷ b'0'
    ∷ b'2'
    ∷ b'6'
    ∷ b'-'
    ∷ b'0'
    ∷ b'1'
    ∷ b'-'
    ∷ (b'0' + day / 10)
    ∷ (b'0' + day % 10)
    ∷ []

-- Day 5 is a Monday.
abbrev pub one_month : Luxon
one_month = record {
  DateTime = ℕ;
  from_object = λ parts zone. at_time parts.day parts.hour parts.minute;
  utc = λ year month day. at_time day 0 0;
  from_instant = λ instant zone. instant;
  is_valid = λ t. true;
  year = λ t. 2026;
  month = λ t. 1;
  day = λ t. t / day_ms + 1;
  hour = λ t. t % day_ms / 3600000;
  minute = λ t. t % 3600000 / 60000;
  weekday = λ t. (t / day_ms + 3) % 7 + 1;
  possible_offsets = λ t. 1;
  offset = λ t. pos 0;
  value = λ t. t;
  plus_days = λ n t. t + n * day_ms;
  minus_days = λ n t. t - n * day_ms;
  to_iso_date = λ t. january (t / day_ms + 1);
}

abbrev pub zone : Text
zone = b'U' ∷ b'T' ∷ b'C' ∷ []

-- Mondays from nine to eleven, with a break at ten; busy until a quarter past nine on the fifth.
abbrev pub anna : EmployeeSnapshot
anna = record {
  employee_id = b'a' ∷ [];
  working_hours =
      record {
        weekday = monday;
        start_minute = 540;
        end_minute = 660;
        breaks = record { start_minute = 600; end_minute = 615 } ∷ [];
      }
      ∷ [];
  exceptions = [];
  time_off_dates = [];
  busy = record { start = at_time 5 9 0; end = at_time 5 9 15 } ∷ [];
}

-- The same hours and nothing booked, but off on the twelfth.
abbrev pub ben : EmployeeSnapshot
ben = record anna { employee_id = b'b' ∷ []; time_off_dates = january 12 ∷ []; busy = [] }

abbrev pub shop : AvailabilitySnapshot
shop = record {
  zone = zone;
  now = at_time 2 8 0;
  settings = record {
    scheduling_interval_minutes = 15;
    minimum_notice_hours = 2;
    booking_horizon_days = 20;
  };
  service = record {
    id = b's' ∷ [];
    duration_minutes = 30;
    prep_buffer_minutes = 0;
    cleanup_buffer_minutes = 15;
  };
  closed_dates = [];
  employees = anna ∷ ben ∷ [];
}

abbrev pub mondays : List Segment
mondays =
    record {
      start_minute = 540;
      end_minute = 660;
      breaks = record { start_minute = 600; end_minute = 615 } ∷ [];
    }
    ∷ []
