-- ===== src/Jobs.antt =====
-- The jobs of the daemon (internal/daemonapi/jobs.go).
pub mod Types
pub mod Run
pub mod Registry
pub mod Sound
pub mod Steps
pub mod Kept
pub mod Single
pub mod Actions
pub mod Turns
pub mod Newest
pub mod Pruning
