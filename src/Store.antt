-- ===== src/Store.antt =====
-- The project store: src/store.
pub mod Errors
pub mod Disk
pub mod Support
pub mod Journal
pub mod Save
pub mod Builds
pub mod Decisions
pub mod Budget
pub mod Jobs
pub mod Calls
