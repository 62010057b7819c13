-- ===== src/Usecase.antt =====
-- internal/usecase: the services.
pub mod Transfers
pub mod Auth
pub mod Accounts
pub mod Queries
