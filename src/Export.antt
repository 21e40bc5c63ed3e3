-- ===== src/Export.antt =====
-- The files that the office downloads: booking-app/apps/api/src/office/csv.ts.
pub mod Csv
pub mod Reader
pub mod Harmless
