-- ===== src/Interval.antt =====
-- booking-app/apps/api/src/domain/time/interval.ts: half-open intervals `[start, end)` of instants.
-- An instant is a number of milliseconds counted from the earliest value that a `Date` can hold,
-- so that differences and comparisons are those of `getTime()`.
pub mod Cover
pub mod Merge
pub mod Canonical
pub mod Subtract
pub mod Fits
use shape_and_flow.Base.{
  ℕ, Bool, true, false, ◌&&◌, ◌||◌, not, List, [], ◌∷◌, ltb, leb, if◌then◌else◌, filter,
}
use shape_and_flow.Base.Sort.{sort}

pub record Interval : Type 0 where
  pub start : ℕ
  pub end : ℕ

abbrev pub is_empty : Interval → Bool
is_empty i = leb i.end i.start

unfoldable pub overlaps : Interval → Interval → Bool
overlaps a b = if is_empty a || is_empty b then false else ltb a.start b.end && ltb b.start a.end

unfoldable pub contains : Interval → Interval → Bool
contains outer inner = leb outer.start inner.start && leb inner.end outer.end

unfoldable pub contains_instant : Interval → ℕ → Bool
contains_instant i t = leb i.start t && ltb t i.end

-- The comparison `a.start - b.start <= 0`.
abbrev pub by_start : Interval → Interval → Bool
by_start a b = leb a.start b.start

-- `last` when the next interval `i` begins within it or at its end.
pub grow : Interval → Interval → Interval
grow last i = if ltb last.end i.end then record { start = last.start; end = i.end } else last

-- The loop of `mergeAdjacent` over the sorted intervals. `last` is `merged.at(-1)`; the entries
-- before it never change again, so they are given out when a later one is pushed.
pub merge_loop : Interval → List Interval → List Interval
unfolding grow
merge_loop last [] = last ∷ []
merge_loop last (i ∷ rest) = elim (leb i.start last.end) [
  | true ↦ merge_loop (grow last i) rest
  | false ↦ last ∷ merge_loop i rest
]

pub merge_sorted : List Interval → List Interval
unfolding merge_loop
merge_sorted [] = []
merge_sorted (i ∷ rest) = merge_loop i rest

unfoldable pub merge_adjacent : List Interval → List Interval
unfolding merge_sorted sort
merge_adjacent intervals = merge_sorted (sort by_start (filter (λ i. not (is_empty i)) intervals))

-- The cursor behind a hole.
pub advance : ℕ → Interval → ℕ
advance cursor hole = if ltb cursor hole.end then hole.end else cursor

-- The loop of `subtract` and the last piece behind it; `end` is `from.end`.
pub subtract_loop : ℕ → ℕ → List Interval → List Interval
unfolding advance
subtract_loop end cursor [] =
    if ltb cursor end then record { start = cursor; end = end } ∷ [] else []
subtract_loop end cursor (hole ∷ rest) =
    let later = subtract_loop end (advance cursor hole) rest in
    if ltb cursor hole.start then record { start = cursor; end = hole.start } ∷ later else later

unfoldable pub subtract : Interval → List Interval → List Interval
unfolding subtract_loop merge_adjacent overlaps
subtract from holes =
    if is_empty from
    then []
    else subtract_loop from.end from.start (merge_adjacent (filter (overlaps from) holes))
