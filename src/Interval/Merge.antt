-- ===== src/Interval/Merge.antt =====
-- `mergeAdjacent` keeps the instants, and its result is separated.
use shape_and_flow.Base.{
  ℕ, ◌≤◌, ◌<◌, ◌≡◌, refl, ◌∙◌, inl, All-imp, inr, true, false, ◌&&◌, ◌||◌, not, List, [], ◌∷◌,
  arith, leb, All, filter, any-filter, any_congr, Bool-cases,
}
use shape_and_flow.Base.Sort.{sort, any-sort, All-sort, IsSorted, sort-IsSorted}
use shape_and_flow.Interval.{
  Interval, is_empty, contains_instant, by_start, grow, merge_loop, merge_sorted, merge_adjacent,
}
use shape_and_flow.Interval.Cover.{covers}

-- The first interval begins strictly after `t`.
abbrev pub After : ℕ → List Interval → Type 0
After t [] = Unit
After t (i ∷ rest) = t < i.start

-- In order, none empty, and with a gap between any two neighbours.
abbrev pub IsSeparated : List Interval → Type 0
IsSeparated [] = Unit
IsSeparated (i ∷ rest) = (i.start < i.end) × After i.end rest × IsSeparated rest

abbrev NonEmpty : List Interval → Type 0
NonEmpty = All (λ i. i.start < i.end)

pub start-grow : (last i : Interval) → (grow last i).start ≡ last.start
unfolding grow
start-grow last i = ground arith

end-le-grow : (last i : Interval) → last.end ≤ (grow last i).end
unfolding grow
end-le-grow last i = ground arith

by_start-grow : (last i j : Interval) → by_start last j ≡ true → by_start (grow last i) j ≡ true
by_start-grow last i j h = rw (start-grow last i) h

-- One round: the interval that grows holds what both held.
contains_instant-grow :
    (last i : Interval) (t : ℕ)
    → last.start ≤ i.start
    → i.start ≤ last.end
    → i.start < i.end
    → contains_instant (grow last i) t ≡ (contains_instant last t || contains_instant i t)
unfolding contains_instant grow
contains_instant-grow last i t h k n = ground arith

covers-merge_loop :
    (last : Interval) (xs : List Interval) (t : ℕ)
    → NonEmpty xs
    → All (λ i. by_start last i ≡ true) xs
    → IsSorted by_start xs
    → covers (merge_loop last xs) t ≡ (contains_instant last t || covers xs t)
unfolding merge_loop
covers-merge_loop last [] t ne lo s = refl
covers-merge_loop last (i ∷ rest) t ne lo s = elim (Bool-cases (leb i.start last.end)) [
  | inl near ↦
      rw (near, merge_loop)
        (ground (
          arith,
          covers-merge_loop (grow last i) rest t ne.1 (All-imp _ _ rest (by_start-grow last i) lo.1)
              s.1,
          contains_instant-grow last i t,
        ))
  | inr far ↦ rw (far, merge_loop) (ground (arith, covers-merge_loop i rest t ne.1 s.0 s.1))
]

merge_loop-After :
    (e : ℕ) (last : Interval) (xs : List Interval) → e < last.start → After e (merge_loop last xs)
unfolding merge_loop
merge_loop-After e last [] h = h
merge_loop-After e last (i ∷ rest) h = elim (Bool-cases (leb i.start last.end)) [
  | inl near ↦
      rw (near, merge_loop) (merge_loop-After e (grow last i) rest (rw (start-grow last i) h))
  | inr far ↦ rw (far, merge_loop) h
]

merge_loop-IsSeparated :
    (last : Interval) (xs : List Interval)
    → last.start < last.end
    → NonEmpty xs
    → IsSeparated (merge_loop last xs)
unfolding merge_loop
merge_loop-IsSeparated last [] n ne = (n, tt, tt)
merge_loop-IsSeparated last (i ∷ rest) n ne = elim (Bool-cases (leb i.start last.end)) [
  | inl near ↦
      rw (near, merge_loop)
        (merge_loop-IsSeparated (grow last i) rest
          (omega (arith, start-grow last i, end-le-grow last i)) ne.1)
  | inr far ↦
      rw (far, merge_loop)
        (
          n,
          merge_loop-After last.end i rest (ground arith),
          merge_loop-IsSeparated i rest ne.0 ne.1,
        )
]

covers-merge_sorted :
    (xs : List Interval) (t : ℕ)
    → NonEmpty xs
    → IsSorted by_start xs
    → covers (merge_sorted xs) t ≡ covers xs t
unfolding merge_sorted
covers-merge_sorted [] t ne s = refl
covers-merge_sorted (i ∷ rest) t ne s = covers-merge_loop i rest t ne.1 s.0 s.1

merge_sorted-IsSeparated : (xs : List Interval) → NonEmpty xs → IsSeparated (merge_sorted xs)
unfolding merge_sorted
merge_sorted-IsSeparated [] ne = tt
merge_sorted-IsSeparated (i ∷ rest) ne = merge_loop-IsSeparated i rest ne.0 ne.1

filter-NonEmpty : (xs : List Interval) → NonEmpty (filter (λ i. not (is_empty i)) xs)
filter-NonEmpty [] = tt
filter-NonEmpty (i ∷ rest) = elim (Bool-cases (is_empty i)) [
  | inl e ↦ rw e (filter-NonEmpty rest)
  | inr e ↦ rw e (ground arith, filter-NonEmpty rest)
]

by_start_total : (a b : Interval) → by_start a b ≡ false → by_start b a ≡ true
by_start_total a b h = ground arith

by_start_trans :
    (a b c : Interval) → by_start a b ≡ true → by_start b c ≡ true → by_start a c ≡ true
by_start_trans a b c h k = ground arith

instant-not-empty :
    (t : ℕ) (i : Interval) → (not (is_empty i) && contains_instant i t) ≡ contains_instant i t
unfolding contains_instant
instant-not-empty t i = ground arith

-- Merging intervals changes none of the instants that they cover.
pub covers-merge_adjacent :
    (xs : List Interval) (t : ℕ) → covers (merge_adjacent xs) t ≡ covers xs t
unfolding merge_adjacent
covers-merge_adjacent xs t =
    let kept = filter (λ i. not (is_empty i)) xs in
    covers-merge_sorted (sort by_start kept) t (All-sort by_start _ kept (filter-NonEmpty xs))
      (sort-IsSorted by_start by_start_total by_start_trans kept)
    ∙ any-sort by_start (λ i. contains_instant i t) kept
    ∙ any-filter (λ i. contains_instant i t) (λ i. not (is_empty i)) xs
    ∙ any_congr _ _ xs (instant-not-empty t)

-- The merged intervals are in order, none is empty, and any two neighbours leave a gap.
pub merge_adjacent-IsSeparated : (xs : List Interval) → IsSeparated (merge_adjacent xs)
unfolding merge_adjacent
merge_adjacent-IsSeparated xs =
    merge_sorted-IsSeparated (sort by_start (filter (λ i. not (is_empty i)) xs))
      (All-sort by_start _ _ (filter-NonEmpty xs))
