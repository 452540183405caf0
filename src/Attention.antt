-- ===== src/Attention.antt =====
-- Attention markers: internal/coordinator/attention_activity.go and `AttentionActivity` of
-- internal/coordinator/projections.go.
pub mod Markers
pub mod Merge
