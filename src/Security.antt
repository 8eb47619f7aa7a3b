-- ===== src/Security.antt =====
-- src/infrastructure/security.
pub mod Lockout
pub mod Blacklist
pub mod PasswordPolicy
pub mod Base32
pub mod Totp
pub mod TokenService
