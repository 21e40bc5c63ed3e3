-- ===== src/Availability/Employee.antt =====
-- The slots of one employee on one date are exactly the instants that some segment offers.
use shape_and_flow.Base.{
  ℕ, ◌≡◌, refl, sym, ◌∙◌, ◌↔◌, inl, inr, false, Option, List, [], ◌∷◌, Outcome, ok, Chain-of, chain,
  ok_injective, In, In-append, subst,
}
use shape_and_flow.Base.Text.{Text}
use shape_and_flow.Interval.{Interval}
use shape_and_flow.LocalTime.{Luxon, WallClockResult, placed, unplaced}
use shape_and_flow.Availability.Types.{
  ServiceSnapshot, EmployeeSnapshot, AvailabilitySnapshot, SkippedLocalTime, Segment,
}
use shape_and_flow.Availability.Candidates.{includes}
use shape_and_flow.Availability.Engine.{
  segments_for, bounded_slots, segment_slots, segments_slots, employee_slots_for,
}
use shape_and_flow.Availability.Accept.{TakesTime}
use shape_and_flow.Availability.Loops.{clock, place_breaks-some}
use shape_and_flow.Availability.Offer.{
  SegmentOffer, breaks_of, free_slots_sound, free_slots_complete,
}

module _ (luxon : Luxon) (employee : EmployeeSnapshot) (date zone : Text)
    (service : ServiceSnapshot) (earliest_start step : ℕ) (p : TakesTime service) where
  abbrev Offered : Segment → ℕ → Type 0
  Offered = SegmentOffer luxon employee date zone service earliest_start step

  abbrev bounded :
      Segment → WallClockResult → WallClockResult → Outcome (List ℕ × List SkippedLocalTime)
  bounded = bounded_slots luxon employee date zone service earliest_start step

  abbrev of_segment : Segment → Outcome (List ℕ × List SkippedLocalTime)
  of_segment = segment_slots luxon employee date zone service earliest_start step

  abbrev of_segments : List Segment → Outcome (List ℕ × List SkippedLocalTime)
  of_segments = segments_slots luxon employee date zone service earliest_start step

  abbrev breaks : Segment → Outcome (Option (List Interval) × List SkippedLocalTime)
  breaks = breaks_of luxon employee date zone service earliest_start step

  bounded_slots_sound :
      (segment : Segment) (f t : WallClockResult) (x : ℕ) {r : List ℕ × List SkippedLocalTime}
      → clock luxon employee date zone segment.start_minute ≡ ok f
      → clock luxon employee date zone segment.end_minute ≡ ok t
      → bounded segment f t ≡ ok r
      → In x r.0
      → Offered segment x
  unfolding bounded_slots
  bounded_slots_sound segment (placed a) (placed b) x hf ht h i =
      elim (Chain-of (breaks segment) _ h) [
        | chain o ho h1 ↦
            free_slots_sound luxon employee date zone service earliest_start step p segment a b o.1
              o.1 o.0 x hf ht ho h1 i
      ]
  bounded_slots_sound segment (placed a) (unplaced why) x hf ht h i =
      absurd (subst (λ r. In x r.0) (sym (ok_injective h)) i)
  bounded_slots_sound segment (unplaced why) t x hf ht h i =
      absurd (subst (λ r. In x r.0) (sym (ok_injective h)) i)

  bounded_slots_complete :
      (segment : Segment) (f t : WallClockResult) (x : ℕ) {r : List ℕ × List SkippedLocalTime}
      (s : Offered segment x)
      → f ≡ placed s.opens
      → t ≡ placed s.closes
      → bounded segment f t ≡ ok r
      → In x r.0
  unfolding bounded_slots
  bounded_slots_complete segment f t x s ef et h =
      elim (Chain-of (breaks segment) _ (rw (ef, et, bounded_slots) at h)) [
        | chain o ho h1 ↦
            let (holes, eo, n) =
              place_breaks-some luxon employee date zone s.block segment.breaks ho s.breaks_clear in
            free_slots_complete luxon employee date zone service earliest_start step p segment o.1
              holes x s n (rw eo at h1)
      ]

  segment_slots_sound :
      (segment : Segment) (x : ℕ) {r : List ℕ × List SkippedLocalTime}
      → of_segment segment ≡ ok r
      → In x r.0
      → Offered segment x
  unfolding segment_slots
  segment_slots_sound segment x h i =
      elim (Chain-of (clock luxon employee date zone segment.start_minute) _ h) [
        | chain f hf h1 ↦ elim (Chain-of (clock luxon employee date zone segment.end_minute) _ h1) [
          | chain t ht h2 ↦ bounded_slots_sound segment f t x hf ht h2 i
        ]
      ]

  segment_slots_complete :
      (segment : Segment) (x : ℕ) {r : List ℕ × List SkippedLocalTime}
      → of_segment segment ≡ ok r
      → Offered segment x
      → In x r.0
  unfolding segment_slots
  segment_slots_complete segment x h s =
      elim (Chain-of (clock luxon employee date zone segment.start_minute) _ h) [
        | chain f hf h1 ↦ elim (Chain-of (clock luxon employee date zone segment.end_minute) _ h1) [
          | chain t ht h2 ↦
              bounded_slots_complete segment f t x s (ok_injective (sym hf ∙ s.opens_at))
                (ok_injective (sym ht ∙ s.closes_at)) h2
        ]
      ]

  segments_slots_sound :
      (segments : List Segment) (x : ℕ) {r : List ℕ × List SkippedLocalTime}
      → of_segments segments ≡ ok r
      → In x r.0
      → (segment : Segment) × In segment segments × Offered segment x
  unfolding segments_slots
  segments_slots_sound [] x h i = absurd (subst (λ r. In x r.0) (sym (ok_injective h)) i)
  segments_slots_sound (segment ∷ more) x h i = elim (Chain-of (of_segment segment) _ h) [
    | chain found hf h1 ↦ elim (Chain-of (of_segments more) _ h1) [
      | chain later hl h2 ↦
          elim ((In-append x found.0 later.0).0 (subst (λ r. In x r.0) (sym (ok_injective h2)) i)) [
            | inl now ↦ (segment, inl refl, segment_slots_sound segment x hf now)
            | inr rest ↦ let (s, is, o) = segments_slots_sound more x hl rest in (s, inr is, o)
          ]
    ]
  ]

  segments_slots_complete :
      (segments : List Segment) (segment : Segment) (x : ℕ) {r : List ℕ × List SkippedLocalTime}
      → of_segments segments ≡ ok r
      → In segment segments
      → Offered segment x
      → In x r.0
  unfolding segments_slots
  segments_slots_complete [] s x h i o = absurd i
  segments_slots_complete (segment ∷ more) s x h i o = elim (Chain-of (of_segment segment) _ h) [
    | chain found hf h1 ↦ elim (Chain-of (of_segments more) _ h1) [
      | chain later hl h2 ↦
          subst (λ r. In x r.0) (ok_injective h2)
            ((In-append x found.0 later.0).1 (elim i [
              | inl e ↦ inl (segment_slots_complete segment x hf (subst (λ g. Offered g x) e o))
              | inr rest ↦ inr (segments_slots_complete more s x hl rest o)
            ]))
    ]
  ]

-- On a date that the employee does not have off, the instants offered are exactly those that one
-- of the date's segments offers, for a service that takes some time.
pub employee_slots_for_iff :
    (luxon : Luxon) (snapshot : AvailabilitySnapshot) (employee : EmployeeSnapshot) (date : Text)
    (earliest_start t : ℕ) (segments : List Segment) (found : List ℕ × List SkippedLocalTime)
    → TakesTime snapshot.service
    → includes date employee.time_off_dates ≡ false
    → segments_for luxon employee date snapshot.zone ≡ ok segments
    → employee_slots_for luxon snapshot employee date earliest_start ≡ ok found
    → In t found.0 ↔ (
        (segment : Segment) × In segment segments
        × SegmentOffer luxon employee date snapshot.zone snapshot.service earliest_start
            snapshot.settings.scheduling_interval_minutes segment t)
unfolding employee_slots_for
employee_slots_for_iff luxon snapshot employee date earliest t segments found p off hs h =
    let k = rw (off, hs, employee_slots_for) at h in
    let step = snapshot.settings.scheduling_interval_minutes in
    (
      segments_slots_sound luxon employee date snapshot.zone snapshot.service earliest step p
          segments t k,
      λ w.
          segments_slots_complete luxon employee date snapshot.zone snapshot.service earliest step p
            segments w.0 t k w.1 w.2,
    )
