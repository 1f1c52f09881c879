-- ===== src/Assessment.antt =====
-- assessment/: what an evaluator produces.
pub mod Types
pub mod Digest
pub mod Validate
pub mod Grounded
pub mod Sealing
