-- ===== src/Calibration.antt =====
-- The calibration artifacts of internal/govarcalibration/calibration.go.
pub mod Rows
pub mod Artifact
pub mod Drift
pub mod Authoritative
mod Tests
