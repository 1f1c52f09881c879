-- ===== src/Audit.antt =====
-- The package audit: how stable the reports of a judge are.
pub mod Disagreement
pub mod Probes
pub mod Panel
pub mod Reliability
