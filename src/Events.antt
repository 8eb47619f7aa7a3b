-- ===== src/Events.antt =====
-- src/infrastructure/events.
pub mod Bus
pub mod Webhooks
