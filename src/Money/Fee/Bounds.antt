-- ===== src/Money/Fee/Bounds.antt =====
-- The suggestion never takes more than was paid, and gives back the rest.
use shape_and_flow.Base.{
  ℕ, ◌*◌, ◌≤◌, ◌≡◌, subst, ◌↔◌, inl, inr, Bool, true, false, arith, if◌then◌else◌, Outcome, ok,
  Chain-of, chain, ok_injective, Bool-cases,
}
use shape_and_flow.Base.Int.{pos, pos_part, neg_part, ◌-ℤ◌, ltb_ℤ, one_sign, sub_ℕ}
use shape_and_flow.Money.{Money, max_safe, zero_money, from_cents, minus, capped_at, is_positive}
use shape_and_flow.Money.Laws.{minus-ok, percent-ok, percent-bounds}
use shape_and_flow.Money.Fee.{
  CancellationFeePolicy, no_fee, fixed_amount, percentage, CancellationFeeSettings,
  CancellationFeeInput, CancellationFeeOutcome, retained_by, retained_for,
  compute_suggested_retained_amount, hour_ms,
}

-- What may be kept of a payment: nothing where nothing was paid, never more than was paid.
abbrev pub Within : Money → Money → Type 0
Within paid retained =
    (retained.currency ≡ paid.currency)
    × (neg_part retained.amount_cents ≡ 0)
    × (pos_part retained.amount_cents ≤ pos_part paid.amount_cents)

fixed-Within :
    (paid retained : Money) (settings : CancellationFeeSettings)
    → is_positive paid ≡ true
    → retained_by fixed_amount paid settings ≡ ok retained
    → Within paid retained
unfolding retained_by from_cents capped_at
fixed-Within paid retained settings p h = ground arith

product_le : (n q : ℕ) → q ≤ 100 → n * 100 ≤ max_safe → n * q ≤ max_safe
product_le n q h k = let m : n * q ≤ n * 100 = grind arith in omega arith

percentage-Within :
    (paid retained : Money) (settings : CancellationFeeSettings)
    → is_positive paid ≡ true
    → pos_part paid.amount_cents * 100 ≤ max_safe
    → retained_by percentage paid settings ≡ ok retained
    → Within paid retained
unfolding retained_by
percentage-Within paid retained settings p small h =
    let n : ℕ = pos_part paid.amount_cents in
    let whole : paid.amount_cents ≡ pos n = ground arith in
    let q = settings.cancellation_fee_percent in
    let (_, _, _, most) = percent-ok paid retained q h in
    let exact : n * pos_part q ≤ max_safe =
      product_le n (pos_part q) (omega (arith, one_sign q)) small in
    let (c, le, sign, _, _, _, _) = percent-bounds paid retained n q whole exact h in (c, sign, le)

retained_by-Within :
    (policy : CancellationFeePolicy) (paid retained : Money) (settings : CancellationFeeSettings)
    → is_positive paid ≡ true
    → pos_part paid.amount_cents * 100 ≤ max_safe
    → retained_by policy paid settings ≡ ok retained
    → Within paid retained
unfolding retained_by
retained_by-Within no_fee paid retained settings p small h = ground arith
retained_by-Within fixed_amount paid retained settings p small h =
    fixed-Within paid retained settings p h
retained_by-Within percentage paid retained settings p small h =
    percentage-Within paid retained settings p small h

retained_for-Within :
    (paid retained : Money) (settings : CancellationFeeSettings)
    → pos_part paid.amount_cents * 100 ≤ max_safe
    → retained_for paid settings ≡ ok retained
    → Within paid retained
unfolding retained_for
retained_for-Within paid retained settings small h = elim (Bool-cases (is_positive paid)) [
  | inl p ↦
      retained_by-Within settings.cancellation_fee_policy paid retained settings p small
        (rw (p, retained_for) at h)
  | inr p ↦
      let e : ok (zero_money paid.currency) ≡ ok retained = rw (p, retained_for) at h in
      ground arith
]

free_until_iff : (s n f : ℕ) → ltb_ℤ (sub_ℕ s n) (pos f) ≡ ltb_ℤ (sub_ℕ s f) (pos n)
free_until_iff s n f = ground arith

-- What is kept, with and without a fee.
kept : Bool → Money → CancellationFeeSettings → Outcome Money
kept applies paid settings =
    if applies then retained_for paid settings else ok (zero_money paid.currency)

kept-Within :
    (applies : Bool) (paid retained : Money) (settings : CancellationFeeSettings)
    → pos_part paid.amount_cents * 100 ≤ max_safe
    → kept applies paid settings ≡ ok retained
    → Within paid retained × (applies ≡ false → retained.amount_cents ≡ pos 0)
unfolding kept
kept-Within true paid retained settings small h =
    (retained_for-Within paid retained settings small h, λ e. cc)
kept-Within false paid retained settings small h = (ground arith, λ e. ground arith)

-- Where a hundred times what was paid is a safe integer, the suggestion keeps at least nothing and at
-- most what was paid, in the currency of the payment; the suggested refund is exactly the rest. A fee applies exactly when free cancellation has ended,
-- and where none applies all is given back.
pub compute_suggested_retained_amount-Within :
    (input : CancellationFeeInput) (out : CancellationFeeOutcome)
    → pos_part input.paid.amount_cents * 100 ≤ max_safe
    → compute_suggested_retained_amount input ≡ ok out
    → Within input.paid out.suggested_retained
      × (out.suggested_refund.currency ≡ input.paid.currency)
      × (out.suggested_refund.amount_cents
          ≡ input.paid.amount_cents -ℤ out.suggested_retained.amount_cents)
      × ((out.fee_applies ≡ true) ↔ (ltb_ℤ out.free_until (pos input.now) ≡ true))
      × (out.fee_applies ≡ false → out.suggested_retained.amount_cents ≡ pos 0)
unfolding compute_suggested_retained_amount kept
compute_suggested_retained_amount-Within input out small h =
    let free_ms = input.settings.free_cancellation_hours * hour_ms in
    let applies = ltb_ℤ (sub_ℕ input.starts_at input.now) (pos free_ms) in
    elim (Chain-of (kept applies input.paid input.settings) _ h) [
      | chain retained hr h1 ↦ elim (Chain-of (minus input.paid retained) _ h1) [
        | chain refund hm h2 ↦
            let (within, none_kept) =
              kept-Within applies input.paid retained input.settings small hr in
            let (_, c, v, _) = minus-ok input.paid retained refund hm in
            subst
              (λ (o : CancellationFeeOutcome).
                Within input.paid o.suggested_retained
                × (o.suggested_refund.currency ≡ input.paid.currency)
                × (o.suggested_refund.amount_cents
                    ≡ input.paid.amount_cents -ℤ o.suggested_retained.amount_cents)
                × ((o.fee_applies ≡ true) ↔ (ltb_ℤ o.free_until (pos input.now) ≡ true))
                × (o.fee_applies ≡ false → o.suggested_retained.amount_cents ≡ pos 0))
              (ok_injective h2)
              (
                within,
                c,
                v,
                rw (free_until_iff input.starts_at input.now free_ms) (λ e. e, λ e. e),
                none_kept,
              )
      ]
    ]
