-- ===== src/Interval/Fits.antt =====
-- What it means that a block lies inside one of the pieces that `subtract` leaves.
use shape_and_flow.Base.{
  ℕ, ◌<◌, ◌≡◌, true, false, ◌&&◌, not, List, [], ◌∷◌, arith, any, Bool-cases, Bool-ext, not-eq_true,
  inl, inr,
}
use shape_and_flow.Interval.{Interval, overlaps, contains, contains_instant, subtract}
use shape_and_flow.Interval.Cover.{covers, overlaps_iff, contains_iff, overlaps_of_instant}
use shape_and_flow.Interval.Canonical.{contains_of_covers}
use shape_and_flow.Interval.Subtract.{covers-subtract, subtract-IsSeparated}

covers_of_overlap :
    (block : Interval) (holes : List Interval) (t : ℕ)
    → contains_instant block t ≡ true
    → covers holes t ≡ true
    → any (overlaps block) holes ≡ true
covers_of_overlap block [] t h k = cc
covers_of_overlap block (i ∷ rest) t h k =
    ground (arith, overlaps_of_instant block i t h, covers_of_overlap block rest t h)

instant_of_overlap :
    (block : Interval) (holes : List Interval)
    → any (overlaps block) holes ≡ true
    → (t : ℕ) × (contains_instant block t ≡ true) × (covers holes t ≡ true)
instant_of_overlap block [] h = absurd (cc)
instant_of_overlap block (i ∷ rest) h = elim (Bool-cases (overlaps block i)) [
  | inl hit ↦ let (t, p, q) = (overlaps_iff block i).0 hit in (t, p, ground arith)
  | inr miss ↦ let (t, p, q) = instant_of_overlap block rest (ground arith) in (t, p, ground arith)
]

piece_covers :
    (block : Interval) (xs : List Interval) (t : ℕ)
    → any (λ i. contains i block) xs ≡ true
    → contains_instant block t ≡ true
    → covers xs t ≡ true
unfolding contains contains_instant
piece_covers block [] t h k = cc
piece_covers block (i ∷ rest) t h k = ground (arith, piece_covers block rest t)

module _ (from block : Interval) (holes : List Interval) (n : block.start < block.end) where
  fits→clear :
      any (λ piece. contains piece block) (subtract from holes) ≡ true
      → (contains from block && not (any (overlaps block) holes)) ≡ true
  fits→clear h = ground (arith, inside, apart)
    where
      left :
          (t : ℕ)
          → contains_instant block t ≡ true
          → (contains_instant from t && not (covers holes t)) ≡ true
      left t k = rw (← covers-subtract from holes t) (piece_covers block _ t h k)

      inside : contains from block ≡ true
      inside = (contains_iff from block (ground arith)).1 (λ t k. ground (arith, left t k))

      apart : any (overlaps block) holes ≡ false
      apart =
          not-eq_true _
            λ b. let (t, p, q) = instant_of_overlap block holes b in ground (arith, left t p)

  clear→fits :
      (contains from block && not (any (overlaps block) holes)) ≡ true
      → any (λ piece. contains piece block) (subtract from holes) ≡ true
  clear→fits h = contains_of_covers block _ n (subtract-IsSeparated from holes) λ t k.
      rw (covers-subtract from holes t) (
        ground (
          arith,
          (contains_iff from block (ground arith)).0 (ground arith) t k,
          covers_of_overlap block holes t k,
        ))

-- A block that is not empty fits one of the pieces that are left exactly when it lies inside the
-- interval and overlaps none of the holes.
pub subtract_fits :
    (from block : Interval) (holes : List Interval)
    → block.start < block.end
    → any (λ piece. contains piece block) (subtract from holes)
      ≡ (contains from block && not (any (overlaps block) holes))
subtract_fits from block holes n =
    Bool-ext _ _ (fits→clear from block holes n) (clear→fits from block holes n)
