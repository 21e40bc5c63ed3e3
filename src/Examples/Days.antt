-- ===== src/Examples/Days.antt =====
-- More of that shop: whole days, the office's view of one, and a range of dates.
use shape_and_flow.Base.{
  ℕ, ◌≡◌, refl, subst, true, false, List, [], ◌∷◌, ok, ok_injective, arith, All,
}
use shape_and_flow.Base.Text.{Text, text_eqb, text_ltb}
use shape_and_flow.LocalTime.{
  parse_local_date, each_local_date, instant_to_local_date, add_local_days,
}
use shape_and_flow.LocalTime.Dates.{Advances, each_local_date-returns}
use shape_and_flow.Availability.Types.{AvailabilitySnapshot, SkippedLocalTime}
use shape_and_flow.Availability.Engine.{employee_slots_for, is_slot_bookable}
use shape_and_flow.Availability.Days.{IsDay, generate_availability-IsDay}
use shape_and_flow.Availability.Office.{as_office_snapshot, earliest_start_of}
use shape_and_flow.Availability.Horizon.{as_office_snapshot-books}
use shape_and_flow.Examples.Calendar.{at_time, january, one_month, zone, anna, shop}
use shape_and_flow.Examples.Slots.{that_monday, monday_run}

generate_availability-IsDay_example : All (IsDay shop) that_monday.days
generate_availability-IsDay_example =
    generate_availability-IsDay one_month shop (january 5) (january 5) that_monday monday_run

abbrev that_morning : AvailabilitySnapshot
that_morning = record shop { now = at_time 5 8 0 }

abbrev for_customers : List ℕ × List SkippedLocalTime
for_customers = (at_time 5 10 15 ∷ [], [])

abbrev for_office : List ℕ × List SkippedLocalTime
for_office = (at_time 5 9 15 ∷ at_time 5 10 15 ∷ [], [])

customers_run :
    employee_slots_for one_month that_morning anna (january 5) (earliest_start_of that_morning)
    ≡ ok for_customers
unfolding employee_slots_for shape_and_flow.Interval.contains
customers_run = refl

office_run :
    employee_slots_for one_month
      (as_office_snapshot that_morning)
      anna
      (january 5)
      (earliest_start_of (as_office_snapshot that_morning))
    ≡ ok for_office
unfolding employee_slots_for as_office_snapshot shape_and_flow.Interval.contains
office_run = refl

as_office_snapshot-books_example : true ≡ true
unfolding instant_to_local_date add_local_days is_slot_bookable as_office_snapshot text_eqb text_ltb
    shape_and_flow.Interval.contains
as_office_snapshot-books_example =
    as_office_snapshot-books one_month that_morning anna.employee_id (january 5) (january 5)
      (at_time 5 10 15) true refl refl
      (λ near far le hn hf.
        subst (λ d. text_ltb far d ≡ false) (ok_injective hn)
          (subst (λ d. text_ltb d (january 25) ≡ false) (ok_injective hf) refl))
      (omega arith) (λ near hn. subst (λ d. text_ltb d (january 5) ≡ false) (ok_injective hn) refl)
      (omega arith) refl refl

parse_run : (parse_local_date one_month (january 5) zone ≡ ok (at_time 5 0 0))
unfolding parse_local_date
parse_run = refl

parse_run_last : (parse_local_date one_month (january 7) zone ≡ ok (at_time 7 0 0))
unfolding parse_local_date
parse_run_last = refl

one_month-Advances : Advances one_month (at_time 7 0 0)
one_month-Advances = λ d v le. (refl, omega arith)

each_local_date-returns_example :
    (dates : List Text) × (each_local_date one_month (january 5) (january 7) zone ≡ ok dates)
each_local_date-returns_example =
    each_local_date-returns one_month (january 5) (january 7) zone (at_time 5 0 0) (at_time 7 0 0)
      parse_run parse_run_last one_month-Advances
