-- ===== src/Presentation.antt =====
-- src/presentation.
pub mod RateLimit
pub mod Access
pub mod Router
pub mod WebSockets
pub mod Server
pub mod EventStreams
