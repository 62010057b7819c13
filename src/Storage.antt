-- ===== src/Storage.antt =====
-- internal/infrastructure/storage and migrations: the tables, the session, and the repositories.
pub mod Tables
pub mod Units
pub mod Session
pub mod Accounts
pub mod Transfers
pub mod Idempotency
pub mod Filter
pub mod Tokens
