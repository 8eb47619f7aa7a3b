-- ===== src/Database.antt =====
-- src/infrastructure/database.
pub mod SqliteUsers
pub mod Users
pub mod Families
pub mod Lockout
pub mod VerificationTokens
pub mod ApiKeys
pub mod Migrations
