-- ===== src/Outbox.antt =====
-- The transactional outbox (internal/platform/outbox): events, the publisher and the relay.
pub mod Event
pub mod Publisher
pub mod Backoff
pub mod Due
pub mod Relay
pub mod Processed
