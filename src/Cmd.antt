-- ===== src/Cmd.antt =====
-- The programs under cmd, as far as they put the parts together.
pub mod Relay
pub mod Reconciler
pub mod Api
