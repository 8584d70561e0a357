-- ===== src/Validation.antt =====
-- The checks of a script bundle: src/validation.rs. Reading the JSON is left to serde.
pub mod Text
pub mod Issues
pub mod Shots
pub mod Bundle
