-- ===== src/Availability/Accept.antt =====
-- What the tests on a candidate of the grid mean.
use shape_and_flow.Base.{
  ℕ, ◌+◌, ◌≤◌, ◌<◌, ◌≡◌, inl, inr, true, false, ◌&&◌, not, some, List, arith, any, Option-cases,
  ltb,
}
use shape_and_flow.Interval.{Interval, overlaps, contains, subtract}
use shape_and_flow.Interval.Fits.{subtract_fits}
use shape_and_flow.Availability.Types.{ServiceSnapshot}
use shape_and_flow.Availability.Candidates.{block_of, block_free, offers}

-- The service takes some time, its buffers included.
abbrev pub TakesTime : ServiceSnapshot → Type 0
TakesTime service =
    0 < service.prep_buffer_minutes + service.duration_minutes + service.cleanup_buffer_minutes

block_of-nonempty :
    (service : ServiceSnapshot) (t : ℕ) (block : Interval)
    → TakesTime service
    → block_of service t ≡ some block
    → block.start < block.end
unfolding block_of
block_of-nonempty service t block p h = ground arith

-- The candidate is not too early, and its block lies in `from`, clear of the holes and the busy
-- times.
pub record Accepts (service : ServiceSnapshot) (earliest : ℕ) (from : Interval)
    (holes busy : List Interval) (t : ℕ) : Type 0 where
  pub noticed : earliest ≤ t
  pub block : Interval
  pub block_eq : block_of service t ≡ some block
  pub inside : contains from block ≡ true
  pub breaks_clear : any (overlaps block) holes ≡ false
  pub not_busy : any (overlaps block) busy ≡ false

module _ (service : ServiceSnapshot) (earliest : ℕ) (from : Interval) (holes busy : List Interval)
    (p : TakesTime service) where
  pub offers-Accepts :
      (t : ℕ)
      → offers service earliest (subtract from holes) busy t ≡ true
      → Accepts service earliest from holes busy t
  unfolding offers
  offers-Accepts t h = elim (Option-cases (block_of service t)) [
    | inl e ↦ ground (arith, rw (e, block_free) at h)
    | inr (block, e) ↦
        let k : (not (ltb t earliest) && block_free (subtract from holes) busy (some block))
            ≡ true =
          rw e at h in
        let fits = subtract_fits from block holes (block_of-nonempty service t block p e) in
        record {
          noticed = ground arith;
          block = block;
          block_eq = e;
          inside = ground arith;
          breaks_clear = ground arith;
          not_busy = ground arith;
        }
  ]

  pub Accepts-offers :
      (t : ℕ)
      → Accepts service earliest from holes busy t
      → offers service earliest (subtract from holes) busy t ≡ true
  unfolding offers
  Accepts-offers t a = rw a.block_eq (
      ground (
        arith,
        subtract_fits from a.block holes (block_of-nonempty service t a.block p a.block_eq),
        a.inside,
        a.breaks_clear,
        a.not_busy,
        a.noticed,
      ))
