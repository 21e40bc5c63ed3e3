-- ===== src/Availability.antt =====
-- booking-app/apps/api/src/domain/availability: slot generation over a snapshot, and the office
-- view of it.
pub mod Types
pub mod Candidates
pub mod Engine
pub mod Grid
pub mod Accept
pub mod Loops
pub mod Offer
pub mod Employee
pub mod Starts
pub mod Order
pub mod Days
pub mod Office
pub mod Horizon
pub mod Bookable
pub mod Offered
