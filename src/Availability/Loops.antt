-- ===== src/Availability/Loops.antt =====
-- The loops of engine.ts over the grid and over the breaks, as sets of results.
use shape_and_flow.Base.{
  ℕ, ◌≡◌, refl, sym, ap, ◌∙◌, ◌⊎◌, inl, inr, true, false, Option, none, some, List, [], ◌∷◌, arith,
  Outcome, ok, Chain-of, chain, ok_injective, In, All, any,
}
use shape_and_flow.Base.Text.{Text}
use shape_and_flow.Interval.{Interval, overlaps}
use shape_and_flow.LocalTime.{Luxon, WallClockResult, placed, unplaced, wall_clock_to_instant}
use shape_and_flow.Availability.Types.{
  ServiceSnapshot, BreakSnapshot, EmployeeSnapshot, SkippedLocalTime,
}
use shape_and_flow.Availability.Candidates.{offers}
use shape_and_flow.Availability.Engine.{
  break_interval, add_break, place_breaks, add_offer, grid_slots,
}

module _ (luxon : Luxon) (employee : EmployeeSnapshot) (date zone : Text) where
  -- The wall clock on the date stands for the instant.
  abbrev pub At : ℕ → ℕ → Type 0
  At minute t = wall_clock_to_instant luxon date minute zone ≡ ok (placed t)

  abbrev pub clock : ℕ → Outcome WallClockResult
  clock minute = wall_clock_to_instant luxon date minute zone

  -- The break can be placed, and the block does not overlap it.
  pub record Clears (block : Interval) (rest : BreakSnapshot) : Type 0 where
    pub from : ℕ
    pub to : ℕ
    pub from_at : At rest.start_minute from
    pub to_at : At rest.end_minute to
    pub apart : overlaps block (record { start = from; end = to }) ≡ false

  module _ (service : ServiceSnapshot) (earliest_start : ℕ) where
    add_offer-In :
        (pieces : List Interval) (c : WallClockResult) (starts : List ℕ) (t : ℕ)
        → In t (add_offer luxon employee date zone service earliest_start pieces c starts)
        → ((c ≡ placed t) × (offers service earliest_start pieces employee.busy t ≡ true))
          ⊎ In t starts
    unfolding add_offer
    add_offer-In pieces (unplaced why) starts t h = inr h
    add_offer-In pieces (placed u) starts t h = ground arith

    In-add_offer :
        (pieces : List Interval) (c : WallClockResult) (starts : List ℕ) (t : ℕ)
        → ((c ≡ placed t) × (offers service earliest_start pieces employee.busy t ≡ true))
          ⊎ In t starts
        → In t (add_offer luxon employee date zone service earliest_start pieces c starts)
    unfolding add_offer
    In-add_offer pieces (unplaced why) starts t h = ground arith
    In-add_offer pieces (placed u) starts t h = ground arith

    -- The candidate minute that stands for the instant.
    abbrev pub Candidate : List Interval → List ℕ → ℕ → Type 0
    Candidate pieces minutes t =
        (m : ℕ) × In m minutes
        × At m t
        × (offers service earliest_start pieces employee.busy t ≡ true)

    abbrev pub slots : List Interval → List ℕ → Outcome (List ℕ × List SkippedLocalTime)
    slots = grid_slots luxon employee date zone service earliest_start

    pub grid_slots_sound :
        (pieces : List Interval) (minutes : List ℕ) (t : ℕ) {r : List ℕ × List SkippedLocalTime}
        → grid_slots luxon employee date zone service earliest_start pieces minutes ≡ ok r
        → In t r.0
        → Candidate pieces minutes t
    unfolding grid_slots
    grid_slots_sound pieces [] t h i = absurd (rw (← ok_injective h) at i)
    grid_slots_sound pieces (minute ∷ more) t h i = elim (Chain-of (clock minute) _ h) [
      | chain c hc h1 ↦ elim (Chain-of (slots pieces more) _ h1) [
        | chain later hl h2 ↦ elim (add_offer-In pieces c later.0 t (rw (← ok_injective h2) at i)) [
          | inl now ↦ (minute, inl refl, hc ∙ ap ok now.0, now.1)
          | inr rest ↦
              let (m, im, at_m, o) = grid_slots_sound pieces more t hl rest in (m, inr im, at_m, o)
        ]
      ]
    ]

    pub grid_slots_complete :
        (pieces : List Interval) (minutes : List ℕ) (t : ℕ) {r : List ℕ × List SkippedLocalTime}
        → grid_slots luxon employee date zone service earliest_start pieces minutes ≡ ok r
        → Candidate pieces minutes t
        → In t r.0
    unfolding grid_slots
    grid_slots_complete pieces [] t h w = absurd w.1
    grid_slots_complete pieces (minute ∷ more) t h (m, im, at_m, o) =
        elim (Chain-of (clock minute) _ h) [
          | chain c hc h1 ↦ elim (Chain-of (slots pieces more) _ h1) [
            | chain later hl h2 ↦ rw (← ok_injective h2) (
                In-add_offer pieces c later.0 t (elim im [
                  | inl e ↦ inl (ok_injective (sym hc ∙ rw (← e) at_m), o)
                  | inr rest ↦ inr (grid_slots_complete pieces more t hl (m, rest, at_m, o))
                ]))
          ]
        ]

  module _ (block : Interval) where
    -- What one break gives: it is clear, and so are the later ones.
    data FirstClear (b : BreakSnapshot) (o : Option (List Interval)) : Type 0 where
      first_clear :
          Clears block b
          → (rest : List Interval) → o ≡ some rest
          → any (overlaps block) rest ≡ false
          → FirstClear b o

    add_break-FirstClear :
        (b : BreakSnapshot) (f t : WallClockResult) (o : Option (List Interval))
        {holes : List Interval}
        → clock b.start_minute ≡ ok f
        → clock b.end_minute ≡ ok t
        → add_break luxon employee date zone (break_interval luxon employee date zone f t) o
          ≡ some holes
        → any (overlaps block) holes ≡ false
        → FirstClear b o
    unfolding add_break break_interval
    add_break-FirstClear b (placed x) (placed y) (some rest) hf ht h n =
        let all : any (overlaps block) (record { start = x; end = y } ∷ rest) ≡ false =
          ground arith in
        first_clear (record { from = x; to = y; from_at = hf; to_at = ht; apart = ground arith })
          rest refl (ground arith)
    add_break-FirstClear b (placed x) (placed y) none hf ht h n = cc
    add_break-FirstClear b (placed x) (unplaced why) o hf ht h n = cc
    add_break-FirstClear b (unplaced why) t o hf ht h n = cc

    pub place_breaks-Clears :
        (breaks : List BreakSnapshot) (holes : List Interval)
        {r : Option (List Interval) × List SkippedLocalTime}
        → place_breaks luxon employee date zone breaks ≡ ok r
        → r.0 ≡ some holes
        → any (overlaps block) holes ≡ false
        → All (Clears block) breaks
    unfolding place_breaks
    place_breaks-Clears [] holes h e n = tt
    place_breaks-Clears (b ∷ more) holes h e n = elim (Chain-of (clock b.start_minute) _ h) [
      | chain f hf h1 ↦ elim (Chain-of (clock b.end_minute) _ h1) [
        | chain t ht h2 ↦ elim (Chain-of (place_breaks luxon employee date zone more) _ h2) [
          | chain later hl h3 ↦
              elim (add_break-FirstClear b f t later.0 hf ht (ap (λ p. p.0) (ok_injective h3) ∙ e)
                n) [ first_clear c rest eo k ↦ (c, place_breaks-Clears more rest hl eo k) ]
        ]
      ]
    ]

    add_break-placed :
        (f t : WallClockResult) (o : Option (List Interval)) (a b : ℕ) (rest : List Interval)
        → f ≡ placed a
        → t ≡ placed b
        → o ≡ some rest
        → add_break luxon employee date zone (break_interval luxon employee date zone f t) o
          ≡ some (record { start = a; end = b } ∷ rest)
    unfolding add_break break_interval
    add_break-placed f t o a b rest ef et eo = rw (ef, et, eo) refl

    pub place_breaks-some :
        (breaks : List BreakSnapshot) {r : Option (List Interval) × List SkippedLocalTime}
        → place_breaks luxon employee date zone breaks ≡ ok r
        → All (Clears block) breaks
        → (holes : List Interval) × (r.0 ≡ some holes) × (any (overlaps block) holes ≡ false)
    unfolding place_breaks
    place_breaks-some [] h c = ([], sym (ap (λ p. p.0) (ok_injective h)), refl)
    place_breaks-some (b ∷ more) h c = elim (Chain-of (clock b.start_minute) _ h) [
      | chain f hf h1 ↦ elim (Chain-of (clock b.end_minute) _ h1) [
        | chain t ht h2 ↦ elim (Chain-of (place_breaks luxon employee date zone more) _ h2) [
          | chain later hl h3 ↦
              let (rest, e, n) = place_breaks-some more hl c.1 in
              (
                record { start = c.0.from; end = c.0.to } ∷ rest,
                sym (ap (λ p. p.0) (ok_injective h3))
                    ∙ add_break-placed f t later.0 c.0.from c.0.to rest
                        (ok_injective (sym hf ∙ c.0.from_at)) (ok_injective (sym ht ∙ c.0.to_at)) e,
                ground (arith, c.0.apart),
              )
        ]
      ]
    ]
