-- ===== src/Blockers.antt =====
-- The dependency blockers of internal/coordinator/blockers.go.
pub mod Graph
pub mod Search
pub mod Commands
pub mod Acyclic
pub mod Adding
pub mod Growth
pub mod Sweep
pub mod Due
pub mod Swept
