-- ===== src/Core.antt =====
-- The domain core: src/core.
pub mod Errors
pub mod Results
pub mod Users
pub mod Operations
pub mod Tokens
pub mod Pages
