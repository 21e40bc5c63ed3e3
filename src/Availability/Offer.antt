-- ===== src/Availability/Offer.antt =====
-- What it takes for an instant to be offered by an employee on a date.
use shape_and_flow.Base.{
  ℕ, ◌≤◌, ◌≡◌, refl, sym, true, false, Option, none, some, List, Outcome, ok, Chain-of, chain,
  ok_injective, In, All, any, subst,
}
use shape_and_flow.Base.Text.{Text}
use shape_and_flow.Interval.{Interval, overlaps, contains, subtract}
use shape_and_flow.LocalTime.{Luxon}
use shape_and_flow.Availability.Types.{ServiceSnapshot, EmployeeSnapshot, SkippedLocalTime, Segment}
use shape_and_flow.Availability.Candidates.{grid_minutes, block_of}
use shape_and_flow.Availability.Engine.{place_breaks, free_slots}
use shape_and_flow.Availability.Grid.{OnGrid, grid_minutes_iff}
use shape_and_flow.Availability.Accept.{TakesTime, offers-Accepts, Accepts-offers}
use shape_and_flow.Availability.Loops.{
  At, Clears, slots, grid_slots_sound, grid_slots_complete, place_breaks-Clears,
}

module _ (luxon : Luxon) (employee : EmployeeSnapshot) (date zone : Text)
    (service : ServiceSnapshot) (earliest_start step : ℕ) where
  -- The segment offers the instant: its bounds can be placed; the instant is a minute of the grid
  -- and not too early; its block lies within the bounds, clear of every break, which can all be
  -- placed, and of everything that is busy.
  pub record SegmentOffer (segment : Segment) (t : ℕ) : Type 0 where
    pub opens : ℕ
    pub closes : ℕ
    pub opens_at : At luxon employee date zone segment.start_minute opens
    pub closes_at : At luxon employee date zone segment.end_minute closes
    pub minute : ℕ
    pub on_grid : OnGrid segment.start_minute segment.end_minute step minute
    pub minute_at : At luxon employee date zone minute t
    pub noticed : earliest_start ≤ t
    pub block : Interval
    pub block_eq : block_of service t ≡ some block
    pub inside : contains (record { start = opens; end = closes }) block ≡ true
    pub breaks_clear : All (Clears luxon employee date zone block) segment.breaks
    pub not_busy : any (overlaps block) employee.busy ≡ false

  abbrev pub free :
      Segment
      → Interval
      → List SkippedLocalTime
      → Option (List Interval)
      → Outcome (List ℕ × List SkippedLocalTime)
  free = free_slots luxon employee date zone service earliest_start step

  abbrev pub breaks_of : Segment → Outcome (Option (List Interval) × List SkippedLocalTime)
  breaks_of segment = place_breaks luxon employee date zone segment.breaks

  module _ (p : TakesTime service) where
    pub free_slots_sound :
        (segment : Segment) (a b : ℕ) (skips placed_skips : List SkippedLocalTime)
        (o : Option (List Interval)) (x : ℕ) {r : List ℕ × List SkippedLocalTime}
        → At luxon employee date zone segment.start_minute a
        → At luxon employee date zone segment.end_minute b
        → breaks_of segment ≡ ok (o, placed_skips)
        → free segment (record { start = a; end = b }) skips o ≡ ok r
        → In x r.0
        → SegmentOffer segment x
    unfolding free_slots
    free_slots_sound segment a b skips ps none x ha hb hp h i =
        absurd (subst (λ r. In x r.0) (sym (ok_injective h)) i)
    free_slots_sound segment a b skips ps (some holes) x ha hb hp h i =
        let hours : Interval = record { start = a; end = b } in
        elim (Chain-of (grid_minutes segment step) _ h) [
          | chain minutes hm h1 ↦
              elim (Chain-of
                (slots luxon employee date zone service earliest_start (subtract hours holes)
                  minutes)
                _ h1) [
                  | chain found hf h2 ↦
                      let (m, im, at_m, o) =
                        grid_slots_sound luxon employee date zone service earliest_start _ minutes x
                          hf (subst (λ r. In x r.0) (sym (ok_injective h2)) i) in
                      let acc =
                        offers-Accepts service earliest_start hours holes employee.busy p x o in
                      record {
                        opens = a;
                        closes = b;
                        opens_at = ha;
                        closes_at = hb;
                        minute = m;
                        on_grid = (grid_minutes_iff segment step m minutes hm).0 im;
                        minute_at = at_m;
                        noticed = acc.noticed;
                        block = acc.block;
                        block_eq = acc.block_eq;
                        inside = acc.inside;
                        breaks_clear =
                            place_breaks-Clears luxon employee date zone acc.block segment.breaks
                              holes hp refl acc.breaks_clear;
                        not_busy = acc.not_busy;
                      }
                ]
        ]

    pub free_slots_complete :
        (segment : Segment) (skips : List SkippedLocalTime) (holes : List Interval) (x : ℕ)
        {r : List ℕ × List SkippedLocalTime} (s : SegmentOffer segment x)
        → any (overlaps s.block) holes ≡ false
        → free segment (record { start = s.opens; end = s.closes }) skips (some holes) ≡ ok r
        → In x r.0
    unfolding free_slots
    free_slots_complete segment skips holes x s n h =
        let hours : Interval = record { start = s.opens; end = s.closes } in
        elim (Chain-of (grid_minutes segment step) _ h) [
          | chain minutes hm h1 ↦
              elim (Chain-of
                (slots luxon employee date zone service earliest_start (subtract hours holes)
                  minutes)
                _ h1) [
                  | chain found hf h2 ↦
                      subst (λ r. In x r.0) (ok_injective h2)
                        (grid_slots_complete luxon employee date zone service earliest_start _
                          minutes x hf
                          (
                            s.minute,
                            (grid_minutes_iff segment step s.minute minutes hm).1 s.on_grid,
                            s.minute_at,
                            Accepts-offers service earliest_start hours holes employee.busy p x
                                (record {
                                  noticed = s.noticed;
                                  block = s.block;
                                  block_eq = s.block_eq;
                                  inside = s.inside;
                                  breaks_clear = n;
                                  not_busy = s.not_busy;
                                }),
                          ))
                ]
        ]
