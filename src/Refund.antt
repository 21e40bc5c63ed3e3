-- ===== src/Refund.antt =====
-- booking-app/apps/api/src/payment/refund.service.ts and the rootBookingId of
-- booking-financials.service.ts: refunds against the payment that a booking's money is on.
pub mod Store
pub mod Service
pub mod Settling
pub mod Sums
pub mod Ledger
pub mod Overtaking
pub mod Reserve
pub mod Target
pub mod Covered
pub mod Settle
pub mod Steps
pub mod Histories
