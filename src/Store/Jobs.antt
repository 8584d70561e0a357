-- ===== src/Store/Jobs.antt =====
-- Jobs in the store: a job is a file of its own beside the state, and a shot names the job that it runs.
pub mod Idle
pub mod Changes
pub mod Operations
pub mod Sound
pub mod Queue
