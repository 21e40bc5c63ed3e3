-- ===== src/Examples.antt =====
-- Concrete inputs at which the theorems are applied.
mod Intervals
mod Calendar
mod Slots
mod Days
mod Amounts
mod Bookings
mod Saga
mod Refunds
mod Reservations
mod Desks
mod Moves
mod Files
