-- ===== src/Tracing.antt =====
-- src/infrastructure/tracing.
pub mod Context
