-- ===== src/Jobs.antt =====
-- The package core/jobs: calls of the job and outcome API.
pub mod WriteSafety
pub mod Calls
pub mod Outcome
pub mod Confirmation
pub mod Client
mod Tests
