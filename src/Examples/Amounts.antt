-- ===== src/Examples/Amounts.antt =====
-- Prices, shares of them and candidates for a booking.
use shape_and_flow.Base.{
  ℕ, ◌+◌, ◌*◌, ◌≡◌, ◌≤◌, ◌<◌, ◌↔◌, refl, true, false, [], ◌∷◌, All, In, ok, arith,
}
use shape_and_flow.Base.Text.{Text}
use shape_and_flow.Base.Int.{pos, neg_part, ◌-ℤ◌, ◌≤ℤ◌, ltb_ℤ}
use shape_and_flow.Money.{Money, sum, plus, minus, percent}
use shape_and_flow.Money.Laws.{total_cents, sum-ok, plus-minus, percent-bounds}
use shape_and_flow.Money.Fee.{
  CancellationFeeInput, CancellationFeeOutcome, percentage, compute_suggested_retained_amount,
}
use shape_and_flow.Money.Fee.Bounds.{Within, compute_suggested_retained_amount-Within}
use shape_and_flow.Selection.{EmployeeCandidate, select_employee}
use shape_and_flow.Selection.Least.{IsLeast, select_employee-IsLeast, select_employee-Perm}
use mathlib.Core.List.{perm_middle}

abbrev euro : Text
euro = b'E' ∷ b'U' ∷ b'R' ∷ []

abbrev cents : ℕ → Money
cents n = record { amount_cents = pos n; currency = euro }

sum-ok_example :
    ((cents 350).currency ≡ euro)
    × ((cents 350).amount_cents ≡ total_cents (cents 100 ∷ cents 250 ∷ []))
    × All (λ a. a.currency ≡ euro) (cents 100 ∷ cents 250 ∷ [])
unfolding sum
sum-ok_example = sum-ok (cents 100 ∷ cents 250 ∷ []) euro (cents 350) refl

plus-minus_example : minus (cents 350) (cents 250) ≡ ok (cents 100)
unfolding plus
plus-minus_example = plus-minus (cents 100) (cents 250) (cents 350) refl refl

percent-bounds_example :
    ((cents 84).currency ≡ euro)
    × (84 ≤ 257)
    × (neg_part (pos 84) ≡ 0)
    × (84 * 100 ≤ 257 * 33)
    × (257 * 33 < 84 * 100 + 100)
    × (pos 0 ≤ℤ pos 33)
    × (pos 33 ≤ℤ pos 100)
unfolding percent
percent-bounds_example = percent-bounds (cents 257) (cents 84) 257 (pos 33) refl (omega arith) refl

-- Past the doubles' whole numbers a share is rounded up, and all of an amount is more than it.
share_rounds_up : percent (cents 105394416020789) (pos 91) ≡ ok (cents 95908918578918)
unfolding percent
share_rounds_up = refl

whole_rounds_up : percent (cents 7287770634018658) (pos 100) ≡ ok (cents 7287770634018659)
unfolding percent
whole_rounds_up = refl

abbrev late : CancellationFeeInput
late = record {
  paid = cents 5000;
  starts_at = 90000000;
  now = 86400000;
  settings = record {
    free_cancellation_hours = 24;
    cancellation_fee_policy = percentage;
    cancellation_fee_amount_cents = pos 0;
    cancellation_fee_percent = pos 30;
  };
}

abbrev late_outcome : CancellationFeeOutcome
late_outcome = record {
  fee_applies = true;
  ms_until_start = pos 3600000;
  free_until = pos 3600000;
  suggested_retained = cents 1500;
  suggested_refund = cents 3500;
}

compute_suggested_retained_amount-Within_example :
    Within (cents 5000) (cents 1500)
    × ((cents 3500).currency ≡ euro)
    × (pos 3500 ≡ pos 5000 -ℤ pos 1500)
    × ((true ≡ true) ↔ (ltb_ℤ (pos 3600000) (pos 86400000) ≡ true))
    × (true ≡ false → pos 1500 ≡ pos 0)
unfolding compute_suggested_retained_amount
compute_suggested_retained_amount-Within_example =
    compute_suggested_retained_amount-Within late late_outcome (omega arith) refl

abbrev candidate : ℕ → ℕ → ℕ → EmployeeCandidate
candidate id bookings order = record {
  employee_id = id ∷ [];
  bookings_that_day = bookings;
  display_order = order;
}

select_employee-IsLeast_example :
    (best : EmployeeCandidate) × In best (candidate 97 2 1 ∷ candidate 98 1 2 ∷ [])
    × (select_employee (candidate 97 2 1 ∷ candidate 98 1 2 ∷ []) ≡ ok best.employee_id)
    × IsLeast best (candidate 97 2 1 ∷ candidate 98 1 2 ∷ [])
select_employee-IsLeast_example = select_employee-IsLeast (candidate 97 2 1) (candidate 98 1 2 ∷ [])

select_employee-Perm_example :
    select_employee (candidate 98 1 2 ∷ candidate 97 2 1 ∷ [])
    ≡ select_employee (candidate 97 2 1 ∷ candidate 98 1 2 ∷ [])
select_employee-Perm_example =
    select_employee-Perm (perm_middle {a = candidate 97 2 1} (candidate 98 1 2 ∷ []) [])
