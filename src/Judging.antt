-- ===== src/Judging.antt =====
-- judging/: the claim judge. Types has its data and collaborators, Aggregate the dimensions from the
-- verdicts, Generate one generation with cache and retries, Evaluate the run as a whole.
pub mod Effects
pub mod Types
pub mod Aggregate
pub mod Generate
pub mod Checks
pub mod Evaluate
pub mod Sealed
pub mod Bypass
pub mod Attempts
pub mod Memory
