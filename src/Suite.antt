-- ===== src/Suite.antt =====
-- suite/: evaluators combined in an acyclic graph.
pub mod Types
pub mod Graph
pub mod Validate
pub mod WellFormed
pub mod Run
