-- ===== src/Spec.antt =====
-- spec/: what an evaluator measures.
pub mod Types
pub mod Digest
pub mod Validate
pub mod Load
pub mod WellFormed
