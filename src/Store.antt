-- ===== src/Store.antt =====
-- The store of the domain events (internal/coordinator/database.go).
pub mod Words
pub mod Bucket
pub mod Types
pub mod Commit
pub mod Append
pub mod Once
pub mod Numbering
pub mod Agreement
pub mod Invariant
