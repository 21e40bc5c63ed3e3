-- ===== src/Availability/Grid.antt =====
-- The candidate minutes of a segment.
use shape_and_flow.Base.{
  ℕ, zero, suc, ◌+◌, ◌*◌, ◌≤◌, ◌<◌, ◌≡◌, ◌⊎◌, ◌↔◌, inl, inr, List, arith, ok, In, leb, leb→le,
  le→leb, ok_injective, Bool-cases, ◌==◌,
}
use shape_and_flow.Availability.Types.{Segment}
use shape_and_flow.Availability.Candidates.{grid_loop, grid_minutes}

-- The minute lies in the range, a whole number of steps behind its start.
pub record OnGrid (from to step m : ℕ) : Type 0 where
  pub low : from ≤ m
  pub high : m ≤ to
  pub steps : ℕ
  pub anchored : m ≡ from + steps * step

OnGrid-here : (from to step m : ℕ) → from ≤ to → m ≡ from → OnGrid from to step m
OnGrid-here from to step m h e = record {
  low = omega arith;
  high = omega arith;
  steps = 0;
  anchored = omega arith;
}

OnGrid-later : {from to step m : ℕ} → OnGrid (from + step) to step m → OnGrid from to step m
OnGrid-later g = record {
  low = omega arith;
  high = g.high;
  steps = g.steps + 1;
  anchored = omega arith;
}

grid_loop-OnGrid :
    (fuel from to step m : ℕ) → In m (grid_loop fuel from to step) → OnGrid from to step m
unfolding grid_loop
grid_loop-OnGrid zero from to step m h = absurd h
grid_loop-OnGrid (suc fuel) from to step m h = elim (Bool-cases (leb from to)) [
  | inr done ↦ absurd (rw (done, grid_loop) at h)
  | inl more ↦
      let p : (m ≡ from) ⊎ In m (grid_loop fuel (from + step) to step) =
        rw (more, grid_loop) at h in
      elim p [
        | inl e ↦ OnGrid-here from to step m (leb→le from to more) e
        | inr later ↦ OnGrid-later (grid_loop-OnGrid fuel (from + step) to step m later)
      ]
]

In-grid_loop :
    (fuel k from to step m : ℕ)
    → 0 < step
    → to < from + fuel
    → m ≤ to
    → m ≡ from + k * step
    → In m (grid_loop fuel from to step)
unfolding grid_loop
In-grid_loop zero k from to step m p f h e = absurd (omega arith)
In-grid_loop (suc fuel) zero from to step m p f h e =
    rw (le→leb from to (omega arith), grid_loop) (inl (omega arith))
In-grid_loop (suc fuel) (suc k) from to step m p f h e =
    rw (le→leb from to (omega arith), grid_loop)
      (inr (In-grid_loop fuel k (from + step) to step m p (omega arith) h (omega arith)))

-- The candidates of a segment are exactly the minutes up to its end that lie a whole number of
-- steps behind its start, for a step of at least one minute.
pub grid_minutes_iff :
    (segment : Segment) (step m : ℕ) (minutes : List ℕ)
    → grid_minutes segment step ≡ ok minutes
    → In m minutes ↔ OnGrid segment.start_minute segment.end_minute step m
unfolding grid_minutes
grid_minutes_iff segment step m minutes h = elim (Bool-cases (step == 0)) [
  | inl e ↦ ground (arith, rw (e, grid_minutes) at h)
  | inr e ↦
      let same = ok_injective (rw (e, grid_minutes) at h) in
      rw (← same) (
        grid_loop-OnGrid _ _ _ step m,
        λ g.
            In-grid_loop (segment.end_minute + 1) g.steps _ _ step m (ground arith) (omega arith)
              g.high g.anchored,
      )
]
