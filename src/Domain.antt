-- ===== src/Domain.antt =====
-- The persisted model of a project: src/domain.
pub mod Script
pub mod Project
pub mod Errors
pub mod Budget
pub mod State
pub mod Validate
