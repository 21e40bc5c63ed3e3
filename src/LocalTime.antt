-- ===== src/LocalTime.antt =====
-- booking-app/apps/api/src/domain/time/local-time.ts: wall clock and instants.
-- The luxon package is the parameter `Luxon`; what local-time.ts does with it is written out.
pub mod Dates
use shape_and_flow.Base.{
  ℕ, zero, suc, ◌+◌, ◌-◌, ◌*◌, ◌/◌, ◌%◌, Bool, ◌&&◌, ◌||◌, not, Option, none, some, List, [], ◌∷◌,
  ltb, leb, ◌==◌, if◌then◌else◌, Outcome, ok, err, invalid_local_time, hang, ◌>>=◌,
}
use shape_and_flow.Base.Text.{Text}
use shape_and_flow.Base.Int.{ℤ, ltb_ℤ}

-- `{ year, month, day, hour, minute }`, as `DateTime.fromObject` takes it.
pub record DateParts : Type 0 where
  pub year : ℕ
  pub month : ℕ
  pub day : ℕ
  pub hour : ℕ
  pub minute : ℕ

-- What local-time.ts calls of luxon. A `DateTime` may be invalid; `value` is `valueOf()`, the
-- instant of `toJSDate()`; `minus_days n` is `plus({ days: -n })`. The values in question are those of the years 0 to 10000.
pub record Luxon : Type 1 where
  pub DateTime : Type 0
  pub from_object : DateParts → Text → DateTime
  pub utc : ℕ → ℕ → ℕ → DateTime
  pub from_instant : ℕ → Text → DateTime
  pub is_valid : DateTime → Bool
  pub year : DateTime → ℕ
  pub month : DateTime → ℕ
  pub day : DateTime → ℕ
  pub hour : DateTime → ℕ
  pub minute : DateTime → ℕ
  pub weekday : DateTime → ℕ
  pub possible_offsets : DateTime → ℕ
  pub offset : DateTime → ℤ
  pub value : DateTime → ℕ
  pub plus_days : ℕ → DateTime → DateTime
  pub minus_days : ℕ → DateTime → DateTime
  pub to_iso_date : DateTime → Text

pub data Weekday : Type 0 where
  monday tuesday wednesday thursday friday saturday sunday : Weekday

-- Why a wall clock stands for no single instant.
pub data Reason : Type 0 where
  nonexistent ambiguous : Reason

pub data WallClockResult : Type 0 where
  placed : ℕ → WallClockResult
  unplaced : Reason → WallClockResult

abbrev is_digit : ℕ → Bool
is_digit c = leb b'0' c && leb c b'9'

abbrev digit : ℕ → ℕ
digit c = c - b'0'

-- `LOCAL_DATE_PATTERN`, with the three groups as numbers.
unfoldable pub match_local_date : Text → Option (ℕ × ℕ × ℕ)
match_local_date (y3 ∷ y2 ∷ y1 ∷ y0 ∷ h1 ∷ m1 ∷ m0 ∷ h2 ∷ d1 ∷ d0 ∷ []) =
    if is_digit y3
      && is_digit y2
      && is_digit y1
      && is_digit y0
      && h1 == b'-'
      && is_digit m1
      && is_digit m0
      && h2 == b'-'
      && is_digit d1
      && is_digit d0
    then some (
      1000 * digit y3 + 100 * digit y2 + 10 * digit y1 + digit y0,
      10 * digit m1 + digit m0,
      10 * digit d1 + digit d0,
    )
    else none
match_local_date _ = none

-- `WEEKDAY_BY_ISO`.
unfoldable pub weekday_by_iso : ℕ → Option Weekday
weekday_by_iso n =
    if n == 1
    then some monday
    else if n == 2
    then some tuesday
    else if n == 3
    then some wednesday
    else if n == 4
    then some thursday
    else if n == 5
    then some friday
    else if n == 6
    then some saturday
    else if n == 7
    then some sunday
    else none

module _ (luxon : Luxon) where
  open luxon use {DateTime, from_object, utc, from_instant, is_valid, possible_offsets}
  open luxon use {value, plus_days, to_iso_date}

  unfoldable pub parse_local_date : Text → Text → Outcome DateTime
  unfolding match_local_date
  parse_local_date date zone = elim (match_local_date date) [
    | none ↦ err invalid_local_time
    | some (y, m, d) ↦
        let parsed =
          from_object (record { year = y; month = m; day = d; hour = 0; minute = 0 }) zone in
        if is_valid parsed then ok parsed else err invalid_local_time
  ]

  -- The date that the wall clock is on: the next one, counted in UTC, for minute 1440.
  unfoldable pub wall_clock_parts : DateTime → ℕ → DateParts
  wall_clock_parts start_of_day minute =
      let next =
        plus_days 1
          (utc (luxon.year start_of_day) (luxon.month start_of_day) (luxon.day start_of_day)) in
      if minute == 1440
      then record {
        year = luxon.year next;
        month = luxon.month next;
        day = luxon.day next;
        hour = 0;
        minute = 0;
      }
      else record {
        year = luxon.year start_of_day;
        month = luxon.month start_of_day;
        day = luxon.day start_of_day;
        hour = minute / 60;
        minute = minute % 60;
      }

  -- The `DateTime` shows the wall clock that was asked for.
  unfoldable pub shows : DateTime → DateParts → Bool
  shows candidate parts =
      luxon.year candidate == parts.year
      && luxon.month candidate == parts.month
      && luxon.day candidate == parts.day
      && luxon.hour candidate == parts.hour
      && luxon.minute candidate == parts.minute

  unfoldable pub wall_clock_to_instant : Text → ℕ → Text → Outcome WallClockResult
  unfolding parse_local_date wall_clock_parts shows
  wall_clock_to_instant date minute zone = if ltb 1440 minute then err invalid_local_time else do
    start_of_day ← parse_local_date date zone
    let parts = wall_clock_parts start_of_day minute
    let candidate = from_object parts zone
    ok (
        if not (shows candidate parts)
        then unplaced nonexistent
        else if ltb 1 (possible_offsets candidate)
        then unplaced ambiguous
        else placed (value candidate))

  unfoldable pub wall_clock_to_instant_or_throw : Text → ℕ → Text → Outcome ℕ
  unfolding wall_clock_to_instant
  wall_clock_to_instant_or_throw date minute zone = do
    result ← wall_clock_to_instant date minute zone
    elim result [ placed instant ↦ ok instant | unplaced reason ↦ err invalid_local_time ]

  unfoldable pub instant_to_local_date : ℕ → Text → Outcome Text
  instant_to_local_date instant zone =
      let local = from_instant instant zone in
      if is_valid local then ok (to_iso_date local) else err invalid_local_time

  unfoldable pub instant_to_minute_of_day : ℕ → Text → Outcome ℕ
  instant_to_minute_of_day instant zone =
      let local = from_instant instant zone in
      if is_valid local
      then ok (luxon.hour local * 60 + luxon.minute local)
      else err invalid_local_time

  -- `while (cursor <= last)`; the fuel bounds the rounds.
  unfoldable pub each_date_loop : ℕ → DateTime → DateTime → Outcome (List Text)
  each_date_loop zero cursor last = err hang
  each_date_loop (suc fuel) cursor last =
      let rest = each_date_loop fuel (plus_days 1 cursor) last in
      if leb (value cursor) (value last)
      then (rest >>= λ dates. ok (to_iso_date cursor ∷ dates))
      else ok []

  unfoldable pub each_local_date : Text → Text → Text → Outcome (List Text)
  unfolding parse_local_date each_date_loop
  each_local_date from to zone = do
    cursor ← parse_local_date from zone
    last ← parse_local_date to zone
    if ltb (value last) (value cursor)
        then ok []
        else each_date_loop (value last + 2 - value cursor) cursor last

  unfoldable pub weekday_of : Text → Text → Outcome Weekday
  unfolding parse_local_date weekday_by_iso
  weekday_of date zone = do
    local ← parse_local_date date zone
    elim (weekday_by_iso (luxon.weekday local)) [
      | some day ↦ ok day
      | none ↦ err invalid_local_time
    ]

  unfoldable pub add_local_days : Text → ℕ → Text → Outcome Text
  unfolding parse_local_date
  add_local_days date days zone = do
    local ← parse_local_date date zone
    ok (to_iso_date (plus_days days local))

  -- `!==` of the two offsets.
  unfoldable pub has_dst_transition : Text → Text → Outcome Bool
  unfolding parse_local_date
  has_dst_transition date zone = do
    start_of_day ← parse_local_date date zone
    let here = luxon.offset start_of_day
    let next = luxon.offset (plus_days 1 start_of_day)
    ok (ltb_ℤ here next || ltb_ℤ next here)
