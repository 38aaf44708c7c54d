-- ===== src/Transfer.antt =====
-- The transfer module (internal/modules/transfer): the state machine of a transfer, the aggregate,
-- the payloads of its events, its repository, the circuit breaker and the use cases.
pub mod Status
pub mod Entity
pub mod Payload
pub mod Breaker
pub mod Repository
pub mod Gateway
pub mod Request
pub mod Transport
pub mod Send
pub mod Check
