-- ===== src/Reconciliation.antt =====
-- The reconciliation module (internal/modules/reconciliation): invoices and incoming payments.
pub mod Invoice
pub mod Payload
pub mod Repository
pub mod Reconcile
