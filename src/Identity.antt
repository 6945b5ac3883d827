-- ===== src/Identity.antt =====
-- Accounts and sessions: app/application/identity with the repositories it calls.
pub mod Users
pub mod Tokens
pub mod Sessions
pub mod Spent
pub mod Access
pub mod Links
pub mod Mails
