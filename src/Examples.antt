-- ===== src/Examples.antt =====
-- One small project, on which each property is applied at least once.
mod Project
mod Script
mod Gate
mod Cues
mod Witnesses
mod Builds
mod Jobs
