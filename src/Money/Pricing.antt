-- ===== src/Money/Pricing.antt =====
-- booking-app/apps/api/src/domain/pricing/pricing.ts: what a service costs for a given employee.
use shape_and_flow.Base.{
  ◌≡◌, true, Option, none, some, arith, if◌then◌else◌, Outcome, ok, err, invalid_money, ◌↔◌,
}
use shape_and_flow.Base.Text.{Text}
use shape_and_flow.Base.Int.{ℤ, pos, ltb_ℤ, ◌≤ℤ◌}
use shape_and_flow.Money.{Money, is_safe, from_cents}

pub record ServicePricing : Type 0 where
  pub price_cents : ℤ
  pub currency : Text

pub record EmployeeServicePricing : Type 0 where
  pub price_override_cents : Option ℤ

-- `link?.priceOverrideCents ?? service.priceCents`.
unfoldable pub effective_cents : ServicePricing → Option EmployeeServicePricing → ℤ
effective_cents service none = service.price_cents
effective_cents service (some link) = elim link.price_override_cents [
  | none ↦ service.price_cents
  | some cents ↦ cents
]

unfoldable pub resolve_effective_price :
    ServicePricing → Option EmployeeServicePricing → Outcome Money
unfolding effective_cents from_cents
resolve_effective_price service link =
    let cents = effective_cents service link in
    if ltb_ℤ cents (pos 0) then err invalid_money else from_cents cents service.currency

-- An override is the price, zero included; without one it is the list price. A price is never
-- negative, and every price from zero up to the safe range is accepted in the service's currency.
pub resolve_effective_price_iff :
    (service : ServicePricing) (link : Option EmployeeServicePricing) (m : Money)
    → (resolve_effective_price service link ≡ ok m) ↔ (
        (m.amount_cents ≡ effective_cents service link)
        × (m.currency ≡ service.currency)
        × (pos 0 ≤ℤ m.amount_cents)
        × (is_safe m.amount_cents ≡ true))
unfolding resolve_effective_price from_cents
resolve_effective_price_iff service link m = (λ h. ground arith, λ h. ground arith)
