-- ===== src/Calendar.antt =====
-- The calendar: booking-app/apps/api/src/public/availability-snapshot.service.ts and the services of
-- booking-app/apps/api/src/booking that write bookings into it.
pub mod Rows
pub mod Snapshot
pub mod Writes
pub mod Insertion
pub mod Reservation
pub mod Padding
pub mod Clear
pub mod Kept
pub mod Written
pub mod Assigned
pub mod Booked
