-- ===== src/Calendar/Rows.antt =====
-- The rows that the calendar's services read and write, of one organization. Of a row the columns
-- are kept that the services decide by or that tell what they did; ids of employees and services
-- are texts, ids that the store gives are numbers.
use shape_and_flow.Base.{ℕ, Bool, Option, List}
use shape_and_flow.Base.Text.{Text}
use shape_and_flow.Base.Int.{ℤ}
use shape_and_flow.Interval.{Interval}
use shape_and_flow.Availability.Types.{
  AvailabilitySettings, ServiceSnapshot, WorkingHoursSnapshot, ExceptionKind,
}
use shape_and_flow.Booking.Status.{BookingStatus}

-- A `@db.Date` column: the date, and the `Date` at UTC midnight that it is handed over as.
pub record DateColumn : Type 0 where
  pub date : Text
  pub instant : ℕ

pub record OrganizationSettings : Type 0 where
  pub zone : Text
  pub availability : AvailabilitySettings
  pub reservation_ttl_minutes : ℕ

pub record ServiceRow : Type 0 where
  pub snapshot : ServiceSnapshot
  pub price_cents : ℤ
  pub currency : Text
  pub is_archived : Bool
  pub is_bookable_online : Bool

pub record EmployeeRow : Type 0 where
  pub id : Text
  pub display_order : ℕ
  pub is_archived : Bool
  pub is_bookable_online : Bool

-- `employee_services`.
pub record AssignmentRow : Type 0 where
  pub employee_id : Text
  pub service_id : Text
  pub price_override_cents : Option ℤ

pub record WorkingHoursRow : Type 0 where
  pub employee_id : Text
  pub hours : WorkingHoursSnapshot

pub record ExceptionRow : Type 0 where
  pub employee_id : Text
  pub date : DateColumn
  pub kind : ExceptionKind
  pub start_minute : Option ℕ
  pub end_minute : Option ℕ

pub record TimeOffRow : Type 0 where
  pub employee_id : Text
  pub is_approved : Bool
  pub start_date : DateColumn
  pub end_date : DateColumn

pub record BlockedTimeRow : Type 0 where
  pub employee_id : Text
  pub span : Interval

-- `span` is from `startsAt` to `endsAt`, `block` from `blockStartsAt` to `blockEndsAt`; `service`
-- holds the service's id and the three snapshots of its times.
pub record AppointmentRow : Type 0 where
  pub id : ℕ
  pub employee_id : Text
  pub customer_id : ℕ
  pub service : ServiceSnapshot
  pub span : Interval
  pub block : Interval
  pub price_cents : ℤ
  pub currency : Text
  pub status : BookingStatus
  pub expires_at : Option ℕ
  pub idempotency_key_id : Option ℕ
  pub rescheduled_from : Option ℕ
  pub financial_root : Option ℕ

pub record CustomerRow : Type 0 where
  pub id : ℕ
  pub email_normalized : Text
  pub locale : ℕ

-- Keys of the scope `booking.create`.
pub record ClaimableKey : Type 0 where
  pub id : ℕ
  pub key : ℕ
  pub is_in_progress : Bool
  pub booking_id : Option ℕ

pub record HistoryRow : Type 0 where
  pub booking_id : ℕ
  pub from_status : Option BookingStatus
  pub to_status : BookingStatus

pub record TokenRow : Type 0 where
  pub booking_id : ℕ
  pub expires_at : ℕ
  pub is_revoked : Bool

-- Rows of the outbox; an expiry is available from its instant on.
pub data CalendarEvent : Type 0 where
  expiry_requested : ℕ → ℕ → CalendarEvent
  confirmed_event : ℕ → CalendarEvent
  canceled_event : ℕ → Option ℕ → CalendarEvent
  rescheduled_event : ℕ → ℕ → CalendarEvent
  reminder_schedule : ℕ → CalendarEvent

pub record CalendarStore : Type 0 where
  pub services : List ServiceRow
  pub employees : List EmployeeRow
  pub assignments : List AssignmentRow
  pub working_hours : List WorkingHoursRow
  pub exceptions : List ExceptionRow
  pub time_off : List TimeOffRow
  pub closed_days : List DateColumn
  pub blocked_times : List BlockedTimeRow
  pub appointments : List AppointmentRow
  pub customers : List CustomerRow
  pub keys : List ClaimableKey
  pub history : List HistoryRow
  pub tokens : List TokenRow
  pub outbox : List CalendarEvent
  pub next_id : ℕ
