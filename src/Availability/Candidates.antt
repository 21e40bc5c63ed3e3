-- ===== src/Availability/Candidates.antt =====
-- booking-app/apps/api/src/domain/availability/engine.ts: the parts of the engine that call no
-- luxon. Durations are milliseconds.
use shape_and_flow.Base.{
  ℕ, zero, suc, ◌+◌, ◌-◌, ◌*◌, Bool, true, false, ◌&&◌, not, Option, none, some, List, [], ◌∷◌,
  ◌++◌, map, ltb, leb, ◌==◌, if◌then◌else◌, any, Outcome, ok, err, internal_error,
}
use shape_and_flow.Base.Text.{Text, text_eqb, text_leb}
use shape_and_flow.Base.Sort.{sort}
use shape_and_flow.Interval.{Interval, overlaps, contains}
use shape_and_flow.LocalTime.{
  Weekday, monday, tuesday, wednesday, thursday, friday, saturday, sunday,
}
use shape_and_flow.Availability.Types.{
  ServiceSnapshot, WorkingHoursSnapshot, ExceptionKind, extra_hours, closed, ExceptionSnapshot,
  Slot, DaySlots, Segment,
}

abbrev pub is_closed_kind : ExceptionKind → Bool
is_closed_kind closed = true
is_closed_kind extra_hours = false

-- `dates.includes(date)`.
abbrev pub includes : Text → List Text → Bool
includes x xs = any (λ y. text_eqb y x) xs

abbrev pub weekday_number : Weekday → ℕ
weekday_number monday = 1
weekday_number tuesday = 2
weekday_number wednesday = 3
weekday_number thursday = 4
weekday_number friday = 5
weekday_number saturday = 6
weekday_number sunday = 7

-- The body of the loop over `exceptions`: both guards, then the push.
unfoldable pub extra_segment : ExceptionKind → Option ℕ → Option ℕ → List Segment
extra_segment extra_hours (some s) (some e) =
    record { start_minute = s; end_minute = e; breaks = [] } ∷ []
extra_segment _ _ _ = []

unfoldable pub extra_segments : List ExceptionSnapshot → List Segment
unfolding extra_segment
extra_segments [] = []
extra_segments (x ∷ xs) = extra_segment x.kind x.start_minute x.end_minute ++ extra_segments xs

unfoldable pub hours_segment : WorkingHoursSnapshot → Segment
hours_segment h = record {
  start_minute = h.start_minute;
  end_minute = h.end_minute;
  breaks = h.breaks;
}

-- `for (minute = from; minute <= to; minute += step)`; the fuel bounds the rounds.
unfoldable pub grid_loop : ℕ → ℕ → ℕ → ℕ → List ℕ
grid_loop zero from to step = []
grid_loop (suc fuel) from to step =
    let later = grid_loop fuel (from + step) to step in if leb from to then from ∷ later else []

unfoldable pub grid_minutes : Segment → ℕ → Outcome (List ℕ)
unfolding grid_loop
grid_minutes segment step =
    if step == 0
    then err internal_error
    else ok (grid_loop (segment.end_minute + 1) segment.start_minute segment.end_minute step)

abbrev pub minute_ms : ℕ
minute_ms = 60000

abbrev pub hour_ms : ℕ
hour_ms = 3600000

-- The block of a booking that starts at the instant; `none` where its start would be before the
-- earliest `Date`, an invalid one.
unfoldable pub block_of : ServiceSnapshot → ℕ → Option Interval
block_of service starts_at =
    let prep = service.prep_buffer_minutes * minute_ms in
    if ltb starts_at prep
    then none
    else some (record {
      start = starts_at - prep;
      end =
          starts_at
          + service.duration_minutes * minute_ms
          + service.cleanup_buffer_minutes * minute_ms;
    })

-- The tests on the block: it lies in a piece, and overlaps nothing that is busy. No comparison
-- with an invalid `Date` holds.
unfoldable pub block_free : List Interval → List Interval → Option Interval → Bool
block_free pieces busy none = false
block_free pieces busy (some block) =
    any (λ piece. contains piece block) pieces && not (any (overlaps block) busy)

-- What the loop over the grid asks of a candidate.
unfoldable pub offers : ServiceSnapshot → ℕ → List Interval → List Interval → ℕ → Bool
unfolding block_of block_free
offers service earliest_start pieces busy starts_at =
    not (ltb starts_at earliest_start) && block_free pieces busy (block_of service starts_at)

-- `employeesByStart`: starts in the order of their insertion, each with a set of ids.
abbrev pub StartMap : Type 0
StartMap = List (ℕ × List Text)

unfoldable pub add_id : Text → List Text → List Text
add_id id [] = id ∷ []
add_id id (x ∷ xs) = if text_eqb x id then x ∷ xs else x ∷ add_id id xs

unfoldable pub add_start : Text → ℕ → StartMap → StartMap
unfolding add_id
add_start id key [] = (key, id ∷ []) ∷ []
add_start id key ((k, ids) ∷ m) =
    if k == key then (k, add_id id ids) ∷ m else (k, ids) ∷ add_start id key m

unfoldable pub add_starts : Text → List ℕ → StartMap → StartMap
unfolding add_start
add_starts id [] m = m
add_starts id (t ∷ ts) m = add_starts id ts (add_start id t m)

abbrev pub by_key : (ℕ × List Text) → (ℕ × List Text) → Bool
by_key a b = leb a.0 b.0

unfoldable pub slot_of : ℕ → (ℕ × List Text) → Slot
unfolding sort text_leb
slot_of duration_ms entry = record {
  starts_at = entry.0;
  ends_at = entry.0 + duration_ms;
  employee_ids = sort text_leb entry.1;
}

unfoldable pub slots_of : ℕ → StartMap → List Slot
unfolding slot_of sort
slots_of duration_ms m = map (slot_of duration_ms) (sort by_key m)

-- `(days[0]?.slots ?? []).some(...)`.
abbrev pub first_day_has : ℕ → List DaySlots → Bool
first_day_has starts_at [] = false
first_day_has starts_at (day ∷ more) = any (λ s. s.starts_at == starts_at) day.slots
