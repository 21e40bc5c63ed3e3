-- ===== src/Booking.antt =====
-- booking-app/apps/api/src/booking: a booking's statuses and the services that move it through
-- them.
pub mod Status
pub mod Transitions
pub mod Saga
