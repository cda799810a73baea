-- ===== src/Auth.antt =====
-- apps/api/src/auth: who may do what.
pub mod Policy
pub mod Tokens
pub mod Accounts
pub mod Outbox
pub mod Lockout
