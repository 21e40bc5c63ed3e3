-- ===== src/Occupancy.antt =====
-- An abstract view of the calendars that booking-app/apps/api/src/booking writes: when each employee
-- is taken.
pub mod View
pub mod Rows
pub mod Refines
pub mod Shifted
pub mod Calls
