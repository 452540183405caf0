-- ===== src/Domain.antt =====
-- The manifest commands of internal/coordinator/domain.go.
pub mod Types
pub mod Slugs
pub mod State
pub mod Edit
pub mod Apply
pub mod Frame
pub mod Tidy
pub mod Invariants
pub mod Sound
pub mod FreeSlugs
pub mod Transition
pub mod Limit
pub mod Reopened
pub mod Commit
pub mod Committed
pub mod Execute
pub mod Replay
pub mod Reads
