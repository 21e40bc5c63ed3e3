-- ===== src/Refund/Target.antt =====
-- A reservation towards a target, which is how cancellations and reschedules ask: what the customer
-- should end up with.
use shape_and_flow.Base.{
  ℕ, ◌+◌, ◌-◌, ◌≤◌, ◌≡◌, refl, sym, ap, ap₂, ◌∙◌, inl, inr, Bool, true, false, some, arith, leb,
  Bool-cases, ok, Chain-of, chain, ok_injective, if◌then◌else◌, min, max,
}
use shape_and_flow.Base.Int.{ℤ, pos, pos_part, ◌+ℤ◌, ◌-ℤ◌, ltb_ℤ, leb_ℤ}
use shape_and_flow.Money.{Money, from_cents, plus, minus, less_than, zero_money}
use shape_and_flow.Money.Laws.{plus-ok, minus-ok}
use shape_and_flow.Refund.Store.{PaymentRow, sum_refunds, is_pending, Store}
use shape_and_flow.Refund.Service.{
  cumulative_target, ReserveRefundInput, RefundReservationResult, root_booking_id, lock_payment,
  additional_for, create_refund, conclude, reserve_against, reserve_in_transaction,
}
use shape_and_flow.Refund.Reserve.{from_cents-ok}

less_than-ok :
    (a b : Money) (r : Bool) → less_than a b ≡ ok r → r ≡ ltb_ℤ a.amount_cents b.amount_cents
unfolding less_than
less_than-ok a b r h = ground arith

pick_arith :
    (goal reserved whole : ℕ)
    → reserved ≤ whole
    → (if leb_ℤ (pos goal -ℤ pos reserved) (pos 0)
        then pos 0
        else if ltb_ℤ (pos goal -ℤ pos reserved) (pos whole -ℤ pos reserved)
        then pos goal -ℤ pos reserved
        else pos whole -ℤ pos reserved)
      ≡ pos ((if leb goal whole then goal else whole) - reserved)
unfolding ◌-ℤ◌
pick_arith goal reserved whole h = ground arith

-- The choice between three amounts.
abbrev choose : {A : Type 0} → Bool → Bool → A → A → A → A
choose p q none_left less all = if p then none_left else if q then less else all

choose_cents :
    (p q : Bool) (a b c : Money)
    → (choose p q a b c).amount_cents ≡ choose p q a.amount_cents b.amount_cents c.amount_cents
choose_cents true q a b c = refl
choose_cents false true a b c = refl
choose_cents false false a b c = refl

abbrev pick : ℤ → ℤ → ℤ
pick o f = choose (leb_ℤ o (pos 0)) (ltb_ℤ o f) (pos 0) o f

additional_for-ok :
    (target : ℕ) (reserved refundable extra : Money) (a whole : ℕ)
    → reserved.amount_cents ≡ pos a
    → refundable.amount_cents ≡ pos whole -ℤ pos a
    → a ≤ whole
    → additional_for (cumulative_target (pos target)) reserved refundable ≡ ok extra
    → extra.amount_cents ≡ pos ((if leb target whole then target else whole) - a)
unfolding additional_for
additional_for-ok target reserved refundable extra a whole hr hf within h =
    elim (Chain-of (from_cents (pos target) reserved.currency) _ h) [
      | chain goal hg h1 ↦ elim (Chain-of (minus goal reserved) _ h1) [
        | chain outstanding ho h2 ↦ elim (Chain-of (less_than outstanding refundable) _ h2) [
          | chain less hl h3 ↦
              let left : outstanding.amount_cents ≡ pos target -ℤ pos a =
                (minus-ok goal reserved outstanding ho).2
                ∙ ap₂ ◌-ℤ◌ (from_cents-ok (pos target) reserved.currency goal hg).0 hr in
              let chosen : extra.amount_cents
                  ≡ pick outstanding.amount_cents refundable.amount_cents =
                sym (ap (λ (m : Money). m.amount_cents) (ok_injective h3))
                ∙ choose_cents (leb_ℤ outstanding.amount_cents (pos 0)) less
                    (zero_money refundable.currency) outstanding refundable
                ∙ ap
                    (λ q.
                      choose (leb_ℤ outstanding.amount_cents (pos 0)) q (pos 0)
                        outstanding.amount_cents refundable.amount_cents)
                    (less_than-ok outstanding refundable less hl) in
              chosen ∙ ap₂ pick left hf ∙ pick_arith target a whole within
        ]
      ]
    ]

-- What is on its way or back of a payment.
abbrev pub committed : Store → PaymentRow → ℕ
committed s p = p.refunded_amount_cents + sum_refunds is_pending p.id s.refunds

abbrev least : ℕ → ℕ → ℕ
least a b = if leb a b then a else b

-- The row that is added counts in full for its payment.
committed-create_refund :
    (s : Store) (input : ReserveRefundInput) (p : PaymentRow) (cents : ℕ)
    → committed (create_refund s input p cents) p ≡ committed s p + cents
unfolding create_refund sum_refunds
committed-create_refund s input p cents = ground arith

conclude-target :
    (s : Store) (id target : ℕ) (lenient : Bool) (p : PaymentRow) (refundable extra : Money) (n : ℕ)
    (r : RefundReservationResult × Store)
    → extra.amount_cents ≡ pos n
    → conclude s
        (record { booking_id = id; amount = cumulative_target (pos target); lenient = lenient })
        p
        refundable
        extra
      ≡ ok r
    → committed r.1 p ≡ committed s p + n
unfolding conclude
conclude-target s id target lenient p refundable extra n r e h =
    let input : ReserveRefundInput = record {
      booking_id = id;
      amount = cumulative_target (pos target);
      lenient = lenient;
    } in
    elim (Bool-cases (leb_ℤ extra.amount_cents (pos 0))) [
      | inl none_left ↦
          let zero_cents : n ≡ 0 = ground (arith, rw (e) at none_left) in
          sym (
            ap (λ (x : RefundReservationResult × Store). committed x.1 p)
              (ok_injective (rw (none_left, conclude) at h)))
          ∙ omega (arith, zero_cents)
      | inr some_left ↦ elim (Bool-cases (ltb_ℤ refundable.amount_cents extra.amount_cents)) [
        | inl too_much ↦ absurd (cc (rw (some_left, conclude, too_much) at h))
        | inr fits ↦
            sym (
              ap (λ (x : RefundReservationResult × Store). committed x.1 p)
                (ok_injective (rw (some_left, conclude, fits) at h)))
            ∙ committed-create_refund s input p (pos_part extra.amount_cents)
            ∙ ap (λ k. committed s p + pos_part k) e
      ]
    ]

sum_arith : (a b : ℕ) → pos a +ℤ pos b ≡ pos (a + b)
unfolding ◌+ℤ◌
sum_arith a b = ground arith

module _ (s : Store) (id target : ℕ) (lenient : Bool) (p : PaymentRow)
    (r : RefundReservationResult × Store) (within : committed s p ≤ p.amount_cents) where
  abbrev towards : ReserveRefundInput
  towards = record { booking_id = id; amount = cumulative_target (pos target); lenient = lenient }

  reserve_against-target :
      reserve_against s towards p ≡ ok r
      → committed r.1 p ≡ committed s p + (least target p.amount_cents - committed s p)
  unfolding reserve_against
  reserve_against-target h =
      let back = p.refunded_amount_cents in
      let open_sum = sum_refunds is_pending p.id s.refunds in
      elim (Chain-of (from_cents (pos back) p.currency) _ h) [
        | chain settled hs h1 ↦ elim (Chain-of (from_cents (pos open_sum) p.currency) _ h1) [
          | chain waiting hw h2 ↦ elim (Chain-of (plus settled waiting) _ h2) [
            | chain reserved hr h3 ↦
                elim (Chain-of (from_cents (pos p.amount_cents) p.currency) _ h3) [
                  | chain whole ha h4 ↦ elim (Chain-of (minus whole reserved) _ h4) [
                    | chain refundable hl h5 ↦
                        elim (Chain-of
                          (additional_for (cumulative_target (pos target)) reserved refundable) _
                          h5) [
                            | chain extra he h6 ↦
                                let taken : reserved.amount_cents ≡ pos (back + open_sum) =
                                  (plus-ok settled waiting reserved hr).2
                                  ∙ ap₂ ◌+ℤ◌ (from_cents-ok (pos back) p.currency settled hs).0
                                      (from_cents-ok (pos open_sum) p.currency waiting hw).0
                                  ∙ sum_arith back open_sum in
                                let left : refundable.amount_cents
                                    ≡ pos p.amount_cents -ℤ pos (back + open_sum) =
                                  (minus-ok whole reserved refundable hl).2
                                  ∙ ap₂ ◌-ℤ◌
                                      (from_cents-ok (pos p.amount_cents) p.currency whole ha).0
                                      taken in
                                conclude-target s id target lenient p refundable extra _ r
                                  (additional_for-ok target reserved refundable extra
                                    (back + open_sum) p.amount_cents taken left within he)
                                  h6
                          ]
                  ]
                ]
          ]
        ]
      ]

target_arith :
    (before target whole : ℕ)
    → before + (least target whole - before) ≡ max before (min target whole)
target_arith before target whole = grind arith

-- A reservation towards a target, of the payment that the booking's money is on: the cents back and on
-- their way become the target, or the whole charge where the target is more, unless they are more
-- already, and then they stay; so two reservations towards one target pay it once. The payment's
-- refunds are covered before.
pub reserve_in_transaction-target :
    (s : Store) (id target root : ℕ) (lenient : Bool) (p : PaymentRow)
    (r : RefundReservationResult × Store)
    → root_booking_id s id ≡ ok root
    → lock_payment s root lenient ≡ ok (some p)
    → committed s p ≤ p.amount_cents
    → reserve_in_transaction s
        (record { booking_id = id; amount = cumulative_target (pos target); lenient = lenient })
      ≡ ok r
    → committed r.1 p ≡ max (committed s p) (min target p.amount_cents)
unfolding reserve_in_transaction
reserve_in_transaction-target s id target root lenient p r hr hp within h =
    reserve_against-target s id target lenient p r within (rw (hr, hp) at h)
    ∙ target_arith (committed s p) target p.amount_cents
