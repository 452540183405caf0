-- ===== src/Runtime.antt =====
-- What the daemon records of an agent's runtime (internal/coordinator/source_stream.go and
-- internal/coordinator/runtime_ingest.go).
pub mod Types
pub mod Activity
pub mod Observation
pub mod Ingest
pub mod Clock
pub mod Fence
pub mod Shown
pub mod Working
pub mod Busy
