-- ===== src/Cache.antt =====
-- src/infrastructure/cache.
pub mod InMemory
pub mod Redis
