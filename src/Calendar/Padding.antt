-- ===== src/Calendar/Padding.antt =====
-- `WINDOW_PADDING_DAYS` of availability-snapshot.service.ts: one day on either side is enough, for
-- the services that SERVICE_BOUNDS of packages/contracts/src/office/catalog.ts lets the office enter.
use shape_and_flow.Base.{
  ℕ, ◌+◌, ◌*◌, ◌≤◌, ◌<◌, ◌≡◌, ap, inl, inr, true, some, arith, Bool-cases, ltb, ok, Chain-of, chain,
  ok_injective,
}
use shape_and_flow.Base.Text.{Text}
use shape_and_flow.Interval.{Interval, contains}
use shape_and_flow.LocalTime.{Luxon, instant_to_local_date, add_local_days}
use shape_and_flow.Availability.Types.{ServiceSnapshot}
use shape_and_flow.Availability.Candidates.{block_of, minute_ms, hour_ms}
use shape_and_flow.Calendar.Snapshot.{utc_midnight, subtract_local_days, window_of}
use shape_and_flow.Calendar.Insertion.{day_ms}

abbrev pub WithinServiceBounds : ServiceSnapshot → Type 0
WithinServiceBounds service =
    (service.duration_minutes ≤ 480)
    × (service.prep_buffer_minutes ≤ 120)
    × (service.cleanup_buffer_minutes ≤ 120)

-- What luxon documents of the local date of an instant: the clock of a zone is at most 14 hours ahead
-- of UTC and 12 behind it, and days are added to a date, and taken from it, by the calendar.
pub record LocalDay (luxon : Luxon) (zone : Text) (t : ℕ) : Type 0 where
  pub date : Text
  pub date_eq : instant_to_local_date luxon t zone ≡ ok date
  pub midnight : ℕ
  pub midnight_eq : utc_midnight luxon date ≡ ok midnight
  pub not_before : midnight ≤ t + 14 * hour_ms
  pub not_after : t < midnight + 36 * hour_ms
  pub days_before :
      (n : ℕ) (d : Text) (m : ℕ)
      → n ≤ 2
      → subtract_local_days luxon date n zone ≡ ok d
      → utc_midnight luxon d ≡ ok m
      → m + n * day_ms ≡ midnight
  pub days_after :
      (n : ℕ) (d : Text) (m : ℕ)
      → n ≤ 2
      → add_local_days luxon date n zone ≡ ok d
      → utc_midnight luxon d ≡ ok m
      → m ≡ midnight + n * day_ms

-- From the day before to the end of the day after, by the calendar.
window_of-ends :
    (luxon : Luxon) (zone : Text) (t : ℕ) (day : LocalDay luxon zone t) (window : Interval)
    → window_of luxon day.date day.date zone ≡ ok window
    → (window.start + day_ms ≡ day.midnight) × (window.end ≡ day.midnight + 2 * day_ms)
unfolding window_of
window_of-ends luxon zone t day window h =
    elim (Chain-of (subtract_local_days luxon day.date 1 zone) _ h) [
      | chain before hf h1 ↦ elim (Chain-of (add_local_days luxon day.date 2 zone) _ h1) [
        | chain after ha h2 ↦ elim (Chain-of (utc_midnight luxon before) _ h2) [
          | chain start hs h3 ↦ elim (Chain-of (utc_midnight luxon after) _ h3) [
            | chain end he h4 ↦
                let first : start ≡ window.start =
                  ap (λ (w : Interval). w.start) (ok_injective h4) in
                let last : end ≡ window.end = ap (λ (w : Interval). w.end) (ok_injective h4) in
                let early = day.days_before 1 before start (omega arith) hf hs in
                let late = day.days_after 2 after end (omega arith) ha he in
                (omega (arith, early, first), omega (arith, late, last))
          ]
        ]
      ]
    ]

-- The block of a service within its bounds lies in the window.
pub window_of-contains :
    (luxon : Luxon) (zone : Text) (t : ℕ) (day : LocalDay luxon zone t) (window block : Interval)
    (service : ServiceSnapshot)
    → WithinServiceBounds service
    → window_of luxon day.date day.date zone ≡ ok window
    → block_of service t ≡ some block
    → contains window block ≡ true
unfolding block_of contains
window_of-contains luxon zone t day window block service bounds hw hb =
    let (starts, ends) = window_of-ends luxon zone t day window hw in
    elim (Bool-cases (ltb t (service.prep_buffer_minutes * minute_ms))) [
      | inl early ↦ absurd (cc (rw (early, block_of) at hb))
      | inr late ↦
          let same = rw (late, block_of) at hb in ground (arith, day.not_before, day.not_after)
    ]
