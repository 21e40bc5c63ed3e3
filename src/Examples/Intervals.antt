-- ===== src/Examples/Intervals.antt =====
-- Intervals of domain/availability/interval.ts: some that touch, overlap and are empty.
use shape_and_flow.Base.{ℕ, ◌≡◌, ◌↔◌, refl, true, not, ◌&&◌, List, [], ◌∷◌, any, arith}
use shape_and_flow.Interval.{
  Interval, overlaps, contains, contains_instant, merge_adjacent, subtract,
}
use shape_and_flow.Interval.Cover.{covers, overlaps_iff, contains_iff}
use shape_and_flow.Interval.Merge.{covers-merge_adjacent, merge_adjacent-IsSeparated, IsSeparated}
use shape_and_flow.Interval.Canonical.{merge_adjacent_canonical}
use shape_and_flow.Interval.Subtract.{covers-subtract, subtract-IsSeparated}
use shape_and_flow.Interval.Fits.{subtract_fits}

abbrev span : ℕ → ℕ → Interval
span a b = record { start = a; end = b }

abbrev holes : List Interval
holes = span 40 50 ∷ span 10 20 ∷ span 20 25 ∷ span 30 30 ∷ []

abbrev joined : List Interval
joined = span 10 25 ∷ span 40 50 ∷ []

overlaps_iff_example : (overlaps (span 10 20) (span 15 30) ≡ true) ↔ (
    (t : ℕ) × (contains_instant (span 10 20) t ≡ true) × (contains_instant (span 15 30) t ≡ true))
overlaps_iff_example = overlaps_iff (span 10 20) (span 15 30)

contains_iff_example :
    (contains (span 10 40) (span 15 30) ≡ true)
    ↔ ((t : ℕ) → contains_instant (span 15 30) t ≡ true → contains_instant (span 10 40) t ≡ true)
contains_iff_example = contains_iff (span 10 40) (span 15 30) refl

covers-merge_adjacent_example : covers (merge_adjacent holes) 22 ≡ covers holes 22
covers-merge_adjacent_example = covers-merge_adjacent holes 22

merge_adjacent-IsSeparated_example : IsSeparated (merge_adjacent holes)
merge_adjacent-IsSeparated_example = merge_adjacent-IsSeparated holes

same_cover : (t : ℕ) → covers holes t ≡ covers joined t
unfolding contains_instant
same_cover t = ground arith

merge_adjacent_canonical_example : merge_adjacent holes ≡ merge_adjacent joined
merge_adjacent_canonical_example = merge_adjacent_canonical holes joined same_cover

covers-subtract_example :
    covers (subtract (span 0 60) holes) 22
    ≡ (contains_instant (span 0 60) 22 && not (covers holes 22))
covers-subtract_example = covers-subtract (span 0 60) holes 22

subtract-IsSeparated_example : IsSeparated (subtract (span 0 60) holes)
subtract-IsSeparated_example = subtract-IsSeparated (span 0 60) holes

subtract_fits_example :
    any (λ piece. contains piece (span 26 35)) (subtract (span 0 60) holes)
    ≡ (contains (span 0 60) (span 26 35) && not (any (overlaps (span 26 35)) holes))
subtract_fits_example = subtract_fits (span 0 60) (span 26 35) holes (omega arith)
