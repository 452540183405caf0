-- ===== src/Tests.antt =====
-- Runs of the definitions on small inputs, and the theorems at such inputs.
mod Samples
mod Blockers
mod Lease
mod Changes
mod Content
mod Runtime
mod Store
mod Jobs
mod Ids
pub mod Attention
pub mod Domain
pub mod Queue
pub mod Claim
pub mod Commit
pub mod Execute
pub mod Reads
