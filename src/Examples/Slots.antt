-- ===== src/Examples/Slots.antt =====
-- A Monday of that shop.
use shape_and_flow.Base.{ℕ, ◌+◌, ◌≡◌, ◌↔◌, refl, List, [], ◌∷◌, ok, arith, In}
use shape_and_flow.Base.Text.{Text, text_eqb}
use shape_and_flow.LocalTime.{instant_to_local_date}
use shape_and_flow.Availability.Types.{Slot, AvailabilityResult, Segment}
use shape_and_flow.Availability.Candidates.{grid_minutes}
use shape_and_flow.Availability.Engine.{
  segments_for, employee_slots_for, generate_availability, is_slot_bookable,
}
use shape_and_flow.Availability.Grid.{OnGrid, grid_minutes_iff}
use shape_and_flow.Availability.Offer.{SegmentOffer}
use shape_and_flow.Availability.Employee.{employee_slots_for_iff}
use shape_and_flow.Availability.Bookable.{first_day_lists, is_slot_bookable_agrees}
use shape_and_flow.Examples.Calendar.{at_time, january, one_month, zone, anna, shop, mondays}

abbrev first_segment : Segment
first_segment = record { start_minute = 540; end_minute = 600; breaks = [] }

grid_minutes_iff_example : In {A = ℕ} 570 (540 ∷ 570 ∷ 600 ∷ []) ↔ OnGrid 540 600 30 570
unfolding grid_minutes
grid_minutes_iff_example = grid_minutes_iff first_segment 30 570 (540 ∷ 570 ∷ 600 ∷ []) refl

abbrev annas : List ℕ
annas = at_time 5 9 15 ∷ at_time 5 10 15 ∷ []

slots_run : employee_slots_for one_month shop anna (january 5) (at_time 2 10 0) ≡ ok (annas, [])
unfolding employee_slots_for shape_and_flow.Interval.contains
slots_run = refl

segments_run : segments_for one_month anna (january 5) zone ≡ ok mondays
unfolding segments_for
segments_run = refl

employee_slots_for_iff_example : In (at_time 5 10 15) annas ↔ (
    (segment : Segment) × In segment mondays
    × SegmentOffer one_month anna
        (january 5)
        zone
        shop.service
        (at_time 2 10 0)
        15
        segment
        (at_time 5 10 15))
unfolding text_eqb
employee_slots_for_iff_example =
    employee_slots_for_iff one_month shop anna (january 5) (at_time 2 10 0) (at_time 5 10 15)
      mondays (annas, []) (omega arith) refl segments_run slots_run

abbrev slot_at : ℕ → ℕ → List Text → Slot
slot_at hour minute ids = record {
  starts_at = at_time 5 hour minute;
  ends_at = at_time 5 hour (minute + 30);
  employee_ids = ids;
}

abbrev pub that_monday : AvailabilityResult
that_monday = record {
  days =
      record {
        date = january 5;
        slots =
            slot_at 9 0 ((b'b' ∷ []) ∷ [])
            ∷ slot_at 9 15 ((b'a' ∷ []) ∷ (b'b' ∷ []) ∷ [])
            ∷ slot_at 10 15 ((b'a' ∷ []) ∷ (b'b' ∷ []) ∷ [])
            ∷ [];
      }
      ∷ [];
  skipped = [];
}

pub monday_run : generate_availability one_month shop (january 5) (january 5) ≡ ok that_monday
unfolding generate_availability shape_and_flow.Interval.contains
monday_run = refl

date_run : instant_to_local_date one_month (at_time 5 9 15) zone ≡ ok (january 5)
unfolding instant_to_local_date
date_run = refl

is_slot_bookable_agrees_example :
    is_slot_bookable one_month shop (b'a' ∷ []) (at_time 5 9 15)
    ≡ ok (first_day_lists (b'a' ∷ []) (at_time 5 9 15) that_monday.days)
unfolding text_eqb
is_slot_bookable_agrees_example =
    is_slot_bookable_agrees one_month shop (b'a' ∷ []) (january 5) (at_time 5 9 15) anna that_monday
      refl (refl, (refl, tt)) date_run monday_run
