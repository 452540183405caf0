-- ===== src/Changes.antt =====
-- The change feed of internal/coordinator/changes.go.
pub mod Log
pub mod Window
pub mod Collect
pub mod Feed
pub mod Gap
