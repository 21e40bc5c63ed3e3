-- ===== src/Money/Fee.antt =====
-- booking-app/apps/api/src/domain/pricing/cancellation-fee.ts: what a late cancellation would
-- retain. `hoursUntilStart` is kept as its numerator, the milliseconds until the start.
pub mod Bounds
use shape_and_flow.Base.{
  ℕ, ◌+◌, ◌*◌, Bool, true, false, ◌&&◌, ◌||◌, ltb, leb, if◌then◌else◌, Outcome, ok, err, ◌>>=◌,
}
use shape_and_flow.Base.Text.{Text}
use shape_and_flow.Base.Int.{ℤ, pos, negsuc, pos_part, neg_part, sub_ℕ, ltb_ℤ}
use shape_and_flow.Money.{Money, zero_money, from_cents, minus, percent, capped_at, is_positive}

pub data CancellationFeePolicy : Type 0 where
  no_fee fixed_amount percentage : CancellationFeePolicy

pub record CancellationFeeSettings : Type 0 where
  pub free_cancellation_hours : ℕ
  pub cancellation_fee_policy : CancellationFeePolicy
  pub cancellation_fee_amount_cents : ℤ
  pub cancellation_fee_percent : ℤ

pub record CancellationFeeInput : Type 0 where
  pub paid : Money
  pub starts_at : ℕ
  pub now : ℕ
  pub settings : CancellationFeeSettings

pub record CancellationFeeOutcome : Type 0 where
  pub fee_applies : Bool
  pub ms_until_start : ℤ
  pub free_until : ℤ
  pub suggested_retained : Money
  pub suggested_refund : Money

abbrev pub hour_ms : ℕ
hour_ms = 3600000

-- `Math.max(0, cents)`.
abbrev pub at_least_zero : ℤ → ℤ
at_least_zero a = pos (pos_part a)

-- The `switch` of `retainedFor`.
unfoldable pub retained_by : CancellationFeePolicy → Money → CancellationFeeSettings → Outcome Money
unfolding from_cents capped_at percent
retained_by no_fee paid settings = ok (zero_money paid.currency)
retained_by fixed_amount paid settings = do
  fee ← from_cents (at_least_zero settings.cancellation_fee_amount_cents) paid.currency
  capped_at fee paid
retained_by percentage paid settings = percent paid settings.cancellation_fee_percent

unfoldable pub retained_for : Money → CancellationFeeSettings → Outcome Money
unfolding retained_by
retained_for paid settings =
    if is_positive paid
    then retained_by settings.cancellation_fee_policy paid settings
    else ok (zero_money paid.currency)

unfoldable pub compute_suggested_retained_amount :
    CancellationFeeInput → Outcome CancellationFeeOutcome
unfolding retained_for minus
compute_suggested_retained_amount input =
    let free_ms = input.settings.free_cancellation_hours * hour_ms in
    let until = sub_ℕ input.starts_at input.now in
    let fee_applies = ltb_ℤ until (pos free_ms) in
    (if fee_applies
      then retained_for input.paid input.settings
      else ok (zero_money input.paid.currency))
    >>= λ retained. minus input.paid retained >>= λ refund. ok (record {
      fee_applies = fee_applies;
      ms_until_start = until;
      free_until = sub_ℕ input.starts_at free_ms;
      suggested_retained = retained;
      suggested_refund = refund;
    })
