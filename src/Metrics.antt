-- ===== src/Metrics.antt =====
-- src/infrastructure/metrics.
pub mod Prometheus
