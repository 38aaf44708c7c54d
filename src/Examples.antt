-- ===== src/Examples.antt =====
-- The theorems at work on concrete data.
mod Data
mod Sending
mod Requests
mod Checking
mod Transactions
mod Relaying
mod Breakers
mod Reconciling
mod Values
mod Banking
mod Accounts
mod Programs
