-- ===== src/Eval.antt =====
-- eval/: what an evaluator observes.
pub mod Types
pub mod Digest
pub mod Validate
pub mod Sealing
pub mod Artifacts
pub mod References
pub mod Binding
