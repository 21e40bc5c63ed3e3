-- ===== src/LocalTime/Dates.antt =====
-- The loop of `eachLocalDate` ends.
use shape_and_flow.Base.{
  ℕ, zero, suc, ◌+◌, ◌-◌, ◌≤◌, ◌<◌, ◌≡◌, refl, subst, true, List, [], ◌∷◌, arith, ltb, leb,
  Bool-cases, Option-cases, inl, inr, ok, ok_injective,
}
use shape_and_flow.Base.Text.{Text}
use shape_and_flow.LocalTime.{
  Luxon, match_local_date, parse_local_date, each_date_loop, each_local_date,
}

-- Up to the instant, a valid date's next day is valid, and later.
abbrev pub Advances : (luxon : Luxon) → ℕ → Type 0
Advances luxon last =
    (d : luxon.DateTime)
    → luxon.is_valid d ≡ true
    → luxon.value d ≤ last
    → (luxon.is_valid (luxon.plus_days 1 d) ≡ true)
      × (luxon.value d < luxon.value (luxon.plus_days 1 d))

module _ (luxon : Luxon) where
  parse_local_date-is_valid :
      (date zone : Text) (d : luxon.DateTime)
      → parse_local_date luxon date zone ≡ ok d
      → luxon.is_valid d ≡ true
  unfolding parse_local_date
  parse_local_date-is_valid date zone d h = elim (Option-cases (match_local_date date)) [
    | inl e ↦ ground (arith, rw (e, parse_local_date) at h)
    | inr ((y, m, n), e) ↦
        let parsed =
          luxon.from_object (record { year = y; month = m; day = n; hour = 0; minute = 0 }) zone in
        elim (Bool-cases (luxon.is_valid parsed)) [
          | inl v ↦
              let same : parsed ≡ d = ok_injective (rw (e, parse_local_date, v) at h) in
              subst (λ x. luxon.is_valid x ≡ true) same v
          | inr v ↦ ground (arith, rw (e, parse_local_date, v) at h)
        ]
  ]

  each_date_loop-returns :
      (fuel : ℕ) (cursor last : luxon.DateTime)
      → Advances luxon (luxon.value last)
      → luxon.is_valid cursor ≡ true
      → 0 < fuel
      → luxon.value last + 2 ≤ fuel + luxon.value cursor
      → (dates : List Text) × (each_date_loop luxon fuel cursor last ≡ ok dates)
  unfolding each_date_loop
  each_date_loop-returns zero cursor last a v p e = absurd (omega arith)
  each_date_loop-returns (suc fuel) cursor last a v p e =
      elim (Bool-cases (leb (luxon.value cursor) (luxon.value last))) [
        | inr over ↦ ([], rw (over, each_date_loop) refl)
        | inl more ↦
            let le : luxon.value cursor ≤ luxon.value last = ground arith in
            let (valid, later) = a cursor v le in
            let (dates, h) =
              each_date_loop-returns fuel (luxon.plus_days 1 cursor) last a valid (omega arith)
                (omega arith) in
            (luxon.to_iso_date cursor ∷ dates, rw (more, each_date_loop, h) refl)
      ]

-- A range of dates is always listed: where both ends are dates, and luxon's next day of a valid
-- date up to the last one is valid and later, the loop ends.
pub each_local_date-returns :
    (luxon : Luxon) (from to zone : Text) (cursor last : luxon.DateTime)
    → parse_local_date luxon from zone ≡ ok cursor
    → parse_local_date luxon to zone ≡ ok last
    → Advances luxon (luxon.value last)
    → (dates : List Text) × (each_local_date luxon from to zone ≡ ok dates)
unfolding each_local_date
each_local_date-returns luxon from to zone cursor last hf ht a =
    elim (Bool-cases (ltb (luxon.value last) (luxon.value cursor))) [
      | inl over ↦ ([], rw (hf, each_local_date, ht, over) refl)
      | inr within ↦
          let (dates, h) =
            each_date_loop-returns luxon (luxon.value last + 2 - luxon.value cursor) cursor last a
              (parse_local_date-is_valid luxon from zone cursor hf) (ground arith) (ground arith) in
          (dates, rw (hf, each_local_date, ht, within, h) refl)
    ]
