-- ===== src/Reconciliation/Payload.antt =====
-- internal/modules/reconciliation/domain/events.go: the events of a reconciliation.
use go_sunabar_payments.Base.{[], ◌∷◌, String}
use go_sunabar_payments.Base.Int.{ℤ}
use go_sunabar_payments.Platform.Json.{text, number, Json, object}

abbrev pub event_reconciliation_completed : String
event_reconciliation_completed = "ReconciliationCompleted"

abbrev pub event_reconciliation_excess : String
event_reconciliation_excess = "ReconciliationExcess"

abbrev pub event_reconciliation_partial : String
event_reconciliation_partial = "ReconciliationPartial"

-- `ReconciliationStatusPayload`.
pub record ReconciliationStatusPayload : Type 0 where
  pub invoice_id : String
  pub virtual_account_id : String
  pub amount : ℤ
  pub paid_amount : ℤ
  pub status : String

unfoldable pub marshal_reconciliation : ReconciliationStatusPayload → Json
marshal_reconciliation p = object (
    ("invoiceId", text p.invoice_id)
    ∷ ("virtualAccountId", text p.virtual_account_id)
    ∷ ("amount", number p.amount)
    ∷ ("paidAmount", number p.paid_amount)
    ∷ ("status", text p.status)
    ∷ [])
