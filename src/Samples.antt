-- ===== src/Samples.antt =====
-- Concrete documents, suites and judges, and the theorems applied to them.
mod Documents
mod Checks
mod Judge
mod Runs
mod Calibrated
mod Audited
mod Stored
