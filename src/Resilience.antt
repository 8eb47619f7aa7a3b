-- ===== src/Resilience.antt =====
-- src/infrastructure/resilience.
pub mod Circuit
pub mod Retry
