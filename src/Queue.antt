-- ===== src/Queue.antt =====
-- The attention queue.
pub mod Priority
pub mod Select
pub mod Order
