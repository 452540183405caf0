-- ===== src/Lease.antt =====
-- Control leases: internal/coordinator/lease.go and the lease types of internal/model/control.go.
-- Each method holds the table's mutex from its first read to its last write, so a method is one step.
pub mod Table
pub mod Exclusive
pub mod History
