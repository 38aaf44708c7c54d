-- ===== src/Platform.antt =====
-- What the modules of the service share (internal/platform): error values, JSON payloads, the
-- types of the bank client, the state in which the service runs and its transactions.
pub mod Errors
pub mod Json
pub mod Bank
pub mod World
pub mod Sql
