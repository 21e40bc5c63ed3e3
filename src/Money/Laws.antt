-- ===== src/Money/Laws.antt =====
-- Sums, differences and percentages of amounts.
use shape_and_flow.Base.{
  ℕ, ◌+◌, ◌*◌, ◌/◌, ◌≤◌, ◌<◌, ◌≡◌, refl, sym, ap, subst, ◌∙◌, true, List, [], ◌∷◌, arith, ok, All,
  ltb, Chain-of, chain, ok_injective,
}
use shape_and_flow.Base.Text.{Text, text_eqb, text_eqb_iff}
use shape_and_flow.Base.Int.{
  ℤ, pos, pos_part, neg_part, ◌+ℤ◌, ◌-ℤ◌, ◌≤ℤ◌, one_sign, +ℤ_assoc, +ℤ_zero, zero_+ℤ, +ℤ_cancel,
}
use shape_and_flow.Money.{
  Money, is_safe, zero_money, from_cents, plus, minus, sum_from, sum, max_safe, rounds_up,
  rounded_product, hundredth, percent_of, percent,
}

-- The exact sum of the amounts.
abbrev pub total_cents : List Money → ℤ
total_cents [] = pos 0
total_cents (a ∷ rest) = a.amount_cents +ℤ total_cents rest

pub plus-ok :
    (a b c : Money)
    → plus a b ≡ ok c
    → (b.currency ≡ a.currency)
      × (c.currency ≡ a.currency)
      × (c.amount_cents ≡ a.amount_cents +ℤ b.amount_cents)
      × (is_safe c.amount_cents ≡ true)
unfolding plus from_cents
plus-ok a b c h = ground (arith, (text_eqb_iff b.currency a.currency).0)

pub minus-ok :
    (a b c : Money)
    → minus a b ≡ ok c
    → (b.currency ≡ a.currency)
      × (c.currency ≡ a.currency)
      × (c.amount_cents ≡ a.amount_cents -ℤ b.amount_cents)
      × (is_safe c.amount_cents ≡ true)
unfolding minus from_cents
minus-ok a b c h = ground (arith, (text_eqb_iff b.currency a.currency).0)

sum_from-ok :
    (amounts : List Money) (total result : Money)
    → sum_from total amounts ≡ ok result
    → (result.currency ≡ total.currency)
      × (result.amount_cents ≡ total.amount_cents +ℤ total_cents amounts)
      × All (λ a. a.currency ≡ total.currency) amounts
unfolding sum_from
sum_from-ok [] total result h = (
  sym (ap (λ m. m.currency) (ok_injective h)),
  sym (ap (λ m. m.amount_cents) (ok_injective h)) ∙ sym (+ℤ_zero total.amount_cents),
  tt,
)
sum_from-ok (a ∷ rest) total result h = elim (Chain-of (plus total a) _ h) [
  | chain next hn h1 ↦
      let (ca, cn, en, _) = plus-ok total a next hn in
      let (cr, er, all) = sum_from-ok rest next result h1 in
      (
        cr ∙ cn,
        er
            ∙ ap (λ x. x +ℤ total_cents rest) en
            ∙ +ℤ_assoc total.amount_cents a.amount_cents (total_cents rest),
        (ca, subst (λ c. All (λ x. x.currency ≡ c) rest) cn all),
      )
]

-- A sum that returns is exact, in the asked currency, and was of amounts in that currency alone.
pub sum-ok :
    (amounts : List Money) (currency : Text) (result : Money)
    → sum amounts currency ≡ ok result
    → (result.currency ≡ currency)
      × (result.amount_cents ≡ total_cents amounts)
      × All (λ a. a.currency ≡ currency) amounts
unfolding sum
sum-ok amounts currency result h =
    let (c, e, all) = sum_from-ok amounts (zero_money currency) result h in
    (c, e ∙ zero_+ℤ (total_cents amounts), all)

-- Adding an amount and taking it away again gives the first amount back.
pub plus-minus :
    (a b c : Money) → is_safe a.amount_cents ≡ true → plus a b ≡ ok c → minus c b ≡ ok a
unfolding minus from_cents
plus-minus a b c s h =
    let (cb, cc', e, _) = plus-ok a b c h in
    let same : text_eqb b.currency c.currency ≡ true =
      (text_eqb_iff b.currency c.currency).1 (cb ∙ sym cc') in
    let back : c.amount_cents -ℤ b.amount_cents ≡ a.amount_cents =
      ap (λ x. x -ℤ b.amount_cents) e ∙ +ℤ_cancel a.amount_cents b.amount_cents in
    rw (same, back, s) (ground arith)

pub percent-ok :
    (a m : Money) (p : ℤ)
    → percent a p ≡ ok m
    → (m.currency ≡ a.currency)
      × (m.amount_cents ≡ percent_of a.amount_cents (pos_part p))
      × (pos 0 ≤ℤ p)
      × (p ≤ℤ pos 100)
unfolding percent from_cents
percent-ok a m p h = ground arith

pub part_le : (n q : ℕ) → q ≤ 100 → n * q / 100 ≤ n
part_le n q h = let k : n * q ≤ n * 100 = grind arith in omega arith

-- Where the product is a whole number that a double holds, so is its hundredth, rounded down.
hundredth-exact : (m : ℕ) → m ≤ max_safe → hundredth (rounded_product m) ≡ m / 100
unfolding hundredth rounded_product rounds_up
hundredth-exact m h =
    let small : ltb m 0x20000000000000 ≡ true = ground arith in
    let low : m / 100 < 0x800000000000 = omega arith in
    rw (small, rounded_product) (ground (arith, hundredth))

-- A percentage that is returned of an amount that is not negative is of a percent between 0 and
-- 100. Where the amount times the percent stays within the safe integers, what is returned has the
-- amount's currency, is between nothing and the whole, and is the exact part rounded down to a cent.
pub percent-bounds :
    (a m : Money) (n : ℕ) (p : ℤ)
    → a.amount_cents ≡ pos n
    → n * pos_part p ≤ max_safe
    → percent a p ≡ ok m
    → (m.currency ≡ a.currency)
      × (pos_part m.amount_cents ≤ n)
      × (neg_part m.amount_cents ≡ 0)
      × (pos_part m.amount_cents * 100 ≤ n * pos_part p)
      × (n * pos_part p < pos_part m.amount_cents * 100 + 100)
      × (pos 0 ≤ℤ p)
      × (p ≤ℤ pos 100)
unfolding percent from_cents percent_of
percent-bounds a m n p e exact h =
    let (c, v, lo, hi) = percent-ok a m p h in
    let w : m.amount_cents ≡ pos (n * pos_part p / 100) =
      v ∙ ap (λ x. percent_of x (pos_part p)) e ∙ ap pos (hundredth-exact (n * pos_part p) exact) in
    let le = part_le n (pos_part p) (omega (arith, one_sign p)) in
    rw w (c, le, refl, omega arith, omega arith, lo, hi)
