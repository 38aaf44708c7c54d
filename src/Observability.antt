-- ===== src/Observability.antt =====
-- internal/platform/observability: the masking of secrets and the metrics.
pub mod Correlation
pub mod Mask
pub mod Metrics
