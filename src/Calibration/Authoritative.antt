-- ===== src/Calibration/Authoritative.antt =====
-- The artifacts and drift windows built from the ledger: internal/govarcalibration/authoritative.go.
pub mod Rows
pub mod Build
pub mod Distinct
pub mod Canonical
pub mod Sound
pub mod Window
pub mod Detected
