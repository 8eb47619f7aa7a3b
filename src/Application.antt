-- ===== src/Application.antt =====
-- src/application/services.
pub mod Auth
pub mod Account
pub mod UserService
pub mod AdminService
