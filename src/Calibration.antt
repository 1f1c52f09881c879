-- ===== src/Calibration.antt =====
-- The package calibration: a protocol's reports against labels that people gave.
pub mod Gold
pub mod Confusion
pub mod Scoring
pub mod Report
