-- ===== src/Interval/Cover.antt =====
-- What the predicates of interval.ts say of the instants that an interval holds.
use shape_and_flow.Base.{ℕ, ◌-◌, ◌≡◌, ◌↔◌, Bool, true, false, List, max, arith, any}
use shape_and_flow.Interval.{Interval, is_empty, overlaps, contains, contains_instant}

-- The instant lies in one of the intervals.
abbrev pub covers : List Interval → ℕ → Bool
covers xs t = any (λ i. contains_instant i t) xs

-- Two intervals overlap exactly when some instant lies in both.
pub overlaps_iff :
    (a b : Interval)
    → (overlaps a b ≡ true)
      ↔ ((t : ℕ) × (contains_instant a t ≡ true) × (contains_instant b t ≡ true))
unfolding overlaps contains_instant
overlaps_iff a b = (
  λ h. (max a.start b.start, ground arith, ground arith),
  λ w. let t = w.0 in let p = w.1 in let q = w.2 in ground arith,
)

-- An interval that is not empty lies inside another exactly when each of its instants does.
pub contains_iff :
    (outer inner : Interval)
    → is_empty inner ≡ false
    → (contains outer inner ≡ true)
      ↔ ((t : ℕ) → contains_instant inner t ≡ true → contains_instant outer t ≡ true)
unfolding contains contains_instant
contains_iff outer inner h =
    (λ c t k. ground arith, λ f. ground (arith, f inner.start, f (inner.end - 1)))

pub contains_instant-is_empty :
    (i : Interval) (t : ℕ) → is_empty i ≡ true → contains_instant i t ≡ false
unfolding contains_instant
contains_instant-is_empty i t h = ground arith

pub overlaps_of_instant :
    (a b : Interval) (t : ℕ)
    → contains_instant a t ≡ true
    → contains_instant b t ≡ true
    → overlaps a b ≡ true
unfolding overlaps contains_instant
overlaps_of_instant a b t p q = ground arith
