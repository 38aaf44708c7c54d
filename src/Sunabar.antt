-- ===== src/Sunabar.antt =====
-- internal/platform/sunabar: the client of the bank's HTTP API and its sources of access tokens.
pub mod Number
pub mod Json
pub mod Wire
pub mod Session
pub mod Auth
pub mod Client
