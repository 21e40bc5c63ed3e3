-- ===== src/Desk.antt =====
-- The office's side of a booking and of its money: cancellations and the requests for them, what was
-- paid, attendance, of booking-app/apps/api/src/booking, payment and office.
pub mod Rows
pub mod Paid
pub mod Cancelling
pub mod Deciding
pub mod Recording
pub mod Moving
pub mod Safe
pub mod Requests
pub mod Steps
pub mod Moved
pub mod Histories
pub mod Rights
pub mod Answered
pub mod PaidBack
pub mod Moves
pub mod MoveDecided
