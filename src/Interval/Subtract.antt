-- ===== src/Interval/Subtract.antt =====
-- What `subtract` leaves of an interval.
use shape_and_flow.Base.{
  ℕ, ◌<◌, ◌≡◌, refl, inl, inr, Bool, true, ◌&&◌, not, max, List, [], ◌∷◌, arith, All, filter, ltb,
  leb, Bool-cases,
}
use shape_and_flow.Base.Sort.{All-sort}
use shape_and_flow.Interval.{
  Interval, is_empty, overlaps, contains_instant, by_start, grow, merge_loop, merge_sorted,
  merge_adjacent, advance, subtract_loop, subtract,
}
use shape_and_flow.Interval.Cover.{covers, overlaps_of_instant}
use shape_and_flow.Interval.Merge.{
  After, IsSeparated, covers-merge_adjacent, merge_adjacent-IsSeparated, start-grow,
}
use shape_and_flow.Interval.Canonical.{covers-After}

-- Every interval begins before `end`.
abbrev StartsBelow : ℕ → List Interval → Type 0
StartsBelow end = All (λ i. i.start < end)

merge_loop-StartsBelow :
    (end : ℕ) (last : Interval) (xs : List Interval)
    → last.start < end
    → StartsBelow end xs
    → StartsBelow end (merge_loop last xs)
unfolding merge_loop
merge_loop-StartsBelow end last [] h k = (h, tt)
merge_loop-StartsBelow end last (i ∷ rest) h k = elim (Bool-cases (leb i.start last.end)) [
  | inl near ↦
      rw (near, merge_loop)
        (merge_loop-StartsBelow end (grow last i) rest (rw (start-grow last i) h) k.1)
  | inr far ↦ rw (far, merge_loop) (h, merge_loop-StartsBelow end i rest k.0 k.1)
]

merge_sorted-StartsBelow :
    (end : ℕ) (xs : List Interval) → StartsBelow end xs → StartsBelow end (merge_sorted xs)
unfolding merge_sorted
merge_sorted-StartsBelow end [] h = tt
merge_sorted-StartsBelow end (i ∷ rest) h = merge_loop-StartsBelow end i rest h.0 h.1

filter-StartsBelow :
    (end : ℕ) (p : Interval → Bool) (xs : List Interval)
    → StartsBelow end xs
    → StartsBelow end (filter p xs)
filter-StartsBelow end p [] h = tt
filter-StartsBelow end p (i ∷ rest) h = elim (Bool-cases (p i)) [
  | inl e ↦ rw e (h.0, filter-StartsBelow end p rest h.1)
  | inr e ↦ rw e (filter-StartsBelow end p rest h.1)
]

overlapping-StartsBelow :
    (from : Interval) (xs : List Interval) → StartsBelow from.end (filter (overlaps from) xs)
unfolding overlaps
overlapping-StartsBelow from [] = tt
overlapping-StartsBelow from (i ∷ rest) = elim (Bool-cases (overlaps from i)) [
  | inl e ↦ rw e (ground arith, overlapping-StartsBelow from rest)
  | inr e ↦ rw e (overlapping-StartsBelow from rest)
]

merge_adjacent-StartsBelow :
    (end : ℕ) (xs : List Interval) → StartsBelow end xs → StartsBelow end (merge_adjacent xs)
unfolding merge_adjacent
merge_adjacent-StartsBelow end xs h =
    merge_sorted-StartsBelow end _
      (All-sort by_start (λ i. i.start < end) _ (filter-StartsBelow end _ xs h))

advance-max : (cursor : ℕ) (hole : Interval) → advance cursor hole ≡ max cursor hole.end
unfolding advance
advance-max cursor hole = ground arith

covers-piece :
    (start end t : ℕ)
    → contains_instant (record { start = start; end = end }) t ≡ (leb start t && ltb t end)
unfolding contains_instant
covers-piece start end t = refl

covers-subtract_loop :
    (end cursor : ℕ) (holes : List Interval) (t : ℕ)
    → IsSeparated holes
    → StartsBelow end holes
    → covers (subtract_loop end cursor holes) t
      ≡ (leb cursor t && ltb t end && not (covers holes t))
unfolding subtract_loop contains_instant
covers-subtract_loop end cursor [] t s b = ground arith
covers-subtract_loop end cursor (hole ∷ rest) t s b =
    let ih = covers-subtract_loop end (advance cursor hole) rest t s.2 b.1 in
    let later = covers-After hole.end t rest s.1 s.2 in
    let move = advance-max cursor hole in
    elim (Bool-cases (ltb cursor hole.start)) [
      | inl gap ↦ rw (gap, ih, move) (ground (arith, later))
      | inr met ↦ rw (met, ih, move) (ground (arith, later))
    ]

overlaps-filter_instant :
    (from : Interval) (xs : List Interval) (t : ℕ)
    → contains_instant from t ≡ true
    → covers (filter (overlaps from) xs) t ≡ covers xs t
overlaps-filter_instant from [] t h = refl
overlaps-filter_instant from (i ∷ rest) t h =
    ground (arith, overlaps-filter_instant from rest t h, overlaps_of_instant from i t h)

-- What is left is exactly the instants of the interval that lie in none of the holes.
pub covers-subtract :
    (from : Interval) (holes : List Interval) (t : ℕ)
    → covers (subtract from holes) t ≡ (contains_instant from t && not (covers holes t))
unfolding subtract contains_instant
covers-subtract from holes t =
    let relevant = filter (overlaps from) holes in
    ground (
      arith,
      covers-subtract_loop from.end from.start (merge_adjacent relevant) t
          (merge_adjacent-IsSeparated relevant)
          (merge_adjacent-StartsBelow from.end relevant (overlapping-StartsBelow from holes)),
      covers-merge_adjacent relevant t,
      overlaps-filter_instant from holes t,
    )

subtract_loop-After :
    (e end cursor : ℕ) (holes : List Interval)
    → e < cursor
    → After e (subtract_loop end cursor holes)
unfolding subtract_loop
subtract_loop-After e end cursor [] h = elim (Bool-cases (ltb cursor end)) [
  | inl a ↦ rw a h
  | inr a ↦ rw a tt
]
subtract_loop-After e end cursor (hole ∷ rest) h = elim (Bool-cases (ltb cursor hole.start)) [
  | inl a ↦ rw a h
  | inr a ↦ rw a (
      subtract_loop-After e end (advance cursor hole) rest (omega (arith, advance-max cursor hole)))
]

subtract_loop-IsSeparated :
    (end cursor : ℕ) (holes : List Interval)
    → IsSeparated holes
    → IsSeparated (subtract_loop end cursor holes)
unfolding subtract_loop
subtract_loop-IsSeparated end cursor [] s = elim (Bool-cases (ltb cursor end)) [
  | inl a ↦ rw a (ground arith, tt, tt)
  | inr a ↦ rw a tt
]
subtract_loop-IsSeparated end cursor (hole ∷ rest) s = elim (Bool-cases (ltb cursor hole.start)) [
  | inl a ↦ rw a (
    ground arith,
    subtract_loop-After hole.start end (advance cursor hole) rest
        (omega (arith, advance-max cursor hole, s.0)),
    subtract_loop-IsSeparated end (advance cursor hole) rest s.2,
  )
  | inr a ↦ rw a (subtract_loop-IsSeparated end (advance cursor hole) rest s.2)
]

-- The pieces come in order, none is empty, and any two neighbours leave a gap.
pub subtract-IsSeparated :
    (from : Interval) (holes : List Interval) → IsSeparated (subtract from holes)
unfolding subtract
subtract-IsSeparated from holes = elim (Bool-cases (is_empty from)) [
  | inl e ↦ rw e tt
  | inr e ↦ rw e (
      subtract_loop-IsSeparated from.end from.start (merge_adjacent (filter (overlaps from) holes))
        (merge_adjacent-IsSeparated (filter (overlaps from) holes)))
]
