-- ===== src/Account.antt =====
-- internal/modules/account: the accounts at the bank, kept in a table, and virtual accounts.
pub mod Entity
pub mod Repository
pub mod Sync
pub mod Issue
pub mod Transport
