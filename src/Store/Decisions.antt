-- ===== src/Store/Decisions.antt =====
-- The decisions on takes of src/store/project/decisions.rs. Each operation is a change of the state,
-- with its guards, between the shared first and last lines.
pub mod Guards
pub mod Changes
pub mod Coherence
pub mod Rejection
pub mod Batches
pub mod Operations
