-- ===== src/Jobs.antt =====
-- src/infrastructure/jobs.
pub mod Queue
