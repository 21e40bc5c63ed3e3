-- ===== src/Selection.antt =====
-- booking-app/apps/api/src/domain/employee-selection/select-employee.ts: who takes an "any
-- employee" booking.
pub mod Least
use shape_and_flow.Base.{
  ℕ, Bool, true, false, List, [], ◌∷◌, ltb, leb, ◌==◌, if◌then◌else◌, Outcome, ok, err,
  no_employee_available,
}
use shape_and_flow.Base.Text.{Text, text_ltb}
use shape_and_flow.Base.Sort.{sort}

pub record EmployeeCandidate : Type 0 where
  pub employee_id : Text
  pub bookings_that_day : ℕ
  pub display_order : ℕ

-- The comparison is at most 0.
unfoldable pub compare_candidates : EmployeeCandidate → EmployeeCandidate → Bool
unfolding text_ltb
compare_candidates a b =
    if a.bookings_that_day == b.bookings_that_day
    then (if a.display_order == b.display_order
        then (if text_ltb a.employee_id b.employee_id
            then true
            else if text_ltb b.employee_id a.employee_id
            then false
            else true)
        else leb a.display_order b.display_order)
    else leb a.bookings_that_day b.bookings_that_day

abbrev pub first_id : List EmployeeCandidate → Outcome Text
first_id [] = err no_employee_available
first_id (best ∷ rest) = ok best.employee_id

unfoldable pub select_employee : List EmployeeCandidate → Outcome Text
unfolding compare_candidates sort
select_employee candidates = first_id (sort compare_candidates candidates)
