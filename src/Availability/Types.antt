-- ===== src/Availability/Types.antt =====
-- booking-app/apps/api/src/domain/availability/types.ts: the snapshot that the engine reads, and
-- its result.
use shape_and_flow.Base.{ℕ, Option, List}
use shape_and_flow.Base.Text.{Text}
use shape_and_flow.Interval.{Interval}
use shape_and_flow.LocalTime.{Weekday, Reason}

pub record AvailabilitySettings : Type 0 where
  pub scheduling_interval_minutes : ℕ
  pub minimum_notice_hours : ℕ
  pub booking_horizon_days : ℕ

pub record ServiceSnapshot : Type 0 where
  pub id : Text
  pub duration_minutes : ℕ
  pub prep_buffer_minutes : ℕ
  pub cleanup_buffer_minutes : ℕ

pub record BreakSnapshot : Type 0 where
  pub start_minute : ℕ
  pub end_minute : ℕ

pub record WorkingHoursSnapshot : Type 0 where
  pub weekday : Weekday
  pub start_minute : ℕ
  pub end_minute : ℕ
  pub breaks : List BreakSnapshot

pub data ExceptionKind : Type 0 where
  extra_hours closed : ExceptionKind

pub record ExceptionSnapshot : Type 0 where
  pub date : Text
  pub kind : ExceptionKind
  pub start_minute : Option ℕ
  pub end_minute : Option ℕ

pub record EmployeeSnapshot : Type 0 where
  pub employee_id : Text
  pub working_hours : List WorkingHoursSnapshot
  pub exceptions : List ExceptionSnapshot
  pub time_off_dates : List Text
  pub busy : List Interval

pub record AvailabilitySnapshot : Type 0 where
  pub zone : Text
  pub now : ℕ
  pub settings : AvailabilitySettings
  pub service : ServiceSnapshot
  pub closed_dates : List Text
  pub employees : List EmployeeSnapshot

pub record Slot : Type 0 where
  pub starts_at : ℕ
  pub ends_at : ℕ
  pub employee_ids : List Text

pub record DaySlots : Type 0 where
  pub date : Text
  pub slots : List Slot

pub record SkippedLocalTime : Type 0 where
  pub employee_id : Text
  pub date : Text
  pub minute : ℕ
  pub reason : Reason

pub record AvailabilityResult : Type 0 where
  pub days : List DaySlots
  pub skipped : List SkippedLocalTime

-- engine.ts: a stretch of one day's hours.
pub record Segment : Type 0 where
  pub start_minute : ℕ
  pub end_minute : ℕ
  pub breaks : List BreakSnapshot
