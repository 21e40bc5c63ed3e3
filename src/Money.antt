-- ===== src/Money.antt =====
-- booking-app/apps/api/src/domain/money/money.ts: amounts in integer minor units.
-- An amount is an integer by representation, so of `assertValidAmount` the safe range is left.
pub mod Laws
pub mod Pricing
pub mod Fee
use shape_and_flow.Base.{
  ℕ, ◌+◌, ◌*◌, ◌/◌, ◌%◌, Bool, true, false, ◌&&◌, ◌||◌, List, [], ◌∷◌, ltb, leb, ◌==◌,
  if◌then◌else◌, Outcome, ok, err, invalid_money, currency_mismatch, invalid_percentage, guard,
  ◌>>◌, ◌>>=◌,
}
use shape_and_flow.Base.Text.{Text, text_eqb}
use shape_and_flow.Base.Int.{ℤ, pos, negsuc, pos_part, neg_part, ◌+ℤ◌, ◌-ℤ◌, ltb_ℤ, leb_ℤ, sub_ℕ}

pub record Money : Type 0 where
  pub amount_cents : ℤ
  pub currency : Text

-- `Number.MAX_SAFE_INTEGER`.
abbrev pub max_safe : ℕ
max_safe = 9007199254740991

abbrev pub is_safe : ℤ → Bool
is_safe a = leb (pos_part a) max_safe && leb (neg_part a) max_safe

abbrev pub zero_money : Text → Money
zero_money currency = record { amount_cents = pos 0; currency = currency }

unfoldable pub from_cents : ℤ → Text → Outcome Money
from_cents amount currency = do
  guard (is_safe amount) invalid_money
  ok (record { amount_cents = amount; currency = currency })

abbrev pub same_currency : Money → Money → Bool
same_currency a b = text_eqb b.currency a.currency

unfoldable pub plus : Money → Money → Outcome Money
unfolding from_cents ◌+ℤ◌ text_eqb
plus a b = do
  guard (same_currency a b) currency_mismatch
  from_cents (a.amount_cents +ℤ b.amount_cents) a.currency

unfoldable pub minus : Money → Money → Outcome Money
unfolding from_cents ◌-ℤ◌ text_eqb
minus a b = do
  guard (same_currency a b) currency_mismatch
  from_cents (a.amount_cents -ℤ b.amount_cents) a.currency

-- The loop of `reduce` in `sum`.
unfoldable pub sum_from : Money → List Money → Outcome Money
unfolding plus
sum_from total [] = ok total
sum_from total (amount ∷ rest) = do next ← plus total amount; sum_from next rest

unfoldable pub sum : List Money → Text → Outcome Money
unfolding sum_from
sum amounts currency = sum_from (zero_money currency) amounts

-- The multiple of `step` nearest to the number, of two as near the even one.
abbrev pub nearest : ℕ → ℕ → ℕ
nearest step n =
    let down = n / step in
    let rest = n % step in
    if ltb step (2 * rest) || (2 * rest == step && down % 2 == 1)
    then (down + 1) * step
    else down * step

-- The double that a product of two whole numbers is rounded to; above 2 ^ 53 the doubles are 2
-- apart, and with each power twice as far. An amount times a percent stays below 2 ^ 60.
unfoldable pub rounded_product : ℕ → ℕ
rounded_product n =
    if ltb n 0x20000000000000
    then n
    else if ltb n 0x40000000000000
    then nearest 2 n
    else if ltb n 0x80000000000000
    then nearest 4 n
    else if ltb n 0x100000000000000
    then nearest 8 n
    else if ltb n 0x200000000000000
    then nearest 16 n
    else if ltb n 0x400000000000000
    then nearest 32 n
    else if ltb n 0x800000000000000
    then nearest 64 n
    else nearest 128 n

-- Whether the double nearest to `whole + rest / 100` is `whole + 1`: the doubles between 2 ^ 52 and
-- 2 ^ 53 are 1 apart, and with each power below half as far, until below 2 ^ 47 none of the
-- hundredths is that near.
unfoldable pub rounds_up : ℕ → ℕ → Bool
rounds_up whole rest =
    if leb 0x10000000000000 whole
    then ltb 50 rest || (rest == 50 && whole % 2 == 1)
    else if leb 0x8000000000000 whole
    then leb 75 rest
    else if leb 0x4000000000000 whole
    then leb 88 rest
    else if leb 0x2000000000000 whole
    then leb 94 rest
    else if leb 0x1000000000000 whole
    then leb 97 rest
    else leb 0x800000000000 whole && leb 99 rest

-- `Math.trunc(product / 100)` of doubles.
unfoldable pub hundredth : ℕ → ℕ
unfolding rounds_up
hundredth product =
    let whole = product / 100 in if rounds_up whole (product % 100) then whole + 1 else whole

-- `Math.trunc((amount * percent) / 100)` in doubles, towards zero.
unfoldable pub percent_of : ℤ → ℕ → ℤ
unfolding rounded_product hundredth
percent_of (pos n) percent = pos (hundredth (rounded_product (n * percent)))
percent_of (negsuc n) percent = sub_ℕ 0 (hundredth (rounded_product ((n + 1) * percent)))

unfoldable pub percent : Money → ℤ → Outcome Money
unfolding from_cents percent_of
percent a p = do
  guard (leb_ℤ (pos 0) p && leb_ℤ p (pos 100)) invalid_percentage
  from_cents (percent_of a.amount_cents (pos_part p)) a.currency

unfoldable pub capped_at : Money → Money → Outcome Money
unfolding text_eqb
capped_at a ceiling = do
  guard (same_currency a ceiling) currency_mismatch
  ok (if ltb_ℤ ceiling.amount_cents a.amount_cents then ceiling else a)

abbrev pub is_zero : Money → Bool
is_zero a = leb_ℤ a.amount_cents (pos 0) && leb_ℤ (pos 0) a.amount_cents

abbrev pub is_negative : Money → Bool
is_negative a = ltb_ℤ a.amount_cents (pos 0)

abbrev pub is_positive : Money → Bool
is_positive a = ltb_ℤ (pos 0) a.amount_cents

unfoldable pub less_than : Money → Money → Outcome Bool
unfolding text_eqb
less_than a b = do
  guard (same_currency a b) currency_mismatch
  ok (ltb_ℤ a.amount_cents b.amount_cents)

unfoldable pub equals : Money → Money → Bool
unfolding text_eqb
equals a b =
    text_eqb a.currency b.currency
    && leb_ℤ a.amount_cents b.amount_cents
    && leb_ℤ b.amount_cents a.amount_cents
