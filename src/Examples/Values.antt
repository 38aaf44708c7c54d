-- ===== src/Examples/Values.antt =====
-- States, payloads, delays and invoices.
use go_sunabar_payments.Base.{ℕ, ◌≡◌, refl, true, List, [], ◌∷◌, none, arith}
use go_sunabar_payments.Base.Int.{pos}
use go_sunabar_payments.Transfer.Status.{
  Status, requested, approved, settled, failed, can_transition,
}
use go_sunabar_payments.Transfer.Entity.{Transfer, new_transfer, transition}
use go_sunabar_payments.Transfer.Entity.History.{history, passes, settled_needs_requested}
use go_sunabar_payments.Transfer.Payload.{StateChangedPayload}
use go_sunabar_payments.Outbox.Backoff.{ten_minutes, backoff_duration}
use go_sunabar_payments.Outbox.Backoff.Bounds.{backoff_exact}
use go_sunabar_payments.Reconciliation.Invoice.{Invoice, invoice_open}
use go_sunabar_payments.Reconciliation.Invoice.Payments.{Says, apply_all, payments_add_up}
use go_sunabar_payments.Examples.Data.{transfer, params}

abbrev life : List (Status × ℕ)
life = (requested, 1) ∷ (approved, 2) ∷ (settled, 3) ∷ (failed, 4) ∷ []

abbrev paid : Transfer
paid = record transfer { status = settled }

settled_needs_requested_example :
    passes (new_transfer "t-1" "req-1" "key-1" params 0) life requested ≡ true
unfolding history transition can_transition new_transfer
settled_needs_requested_example = settled_needs_requested "t-1" "req-1" "key-1" params 0 life refl

abbrev change : StateChangedPayload
change = record {
  transfer_id = "t-1";
  from_status = "PENDING";
  to_status = "FAILED";
  apply_no = "";
  error_message = "no funds";
}

backoff_exact_example : backoff_duration (pos 40) ≡ pos ten_minutes
backoff_exact_example = backoff_exact 40

abbrev invoice : Invoice
invoice = record {
  id = "i-1";
  amount = pos 1000;
  virtual_account_id = "va-1";
  status = invoice_open;
  paid_amount = pos 0;
  memo = none;
  created_at = 0;
  updated_at = 0;
}

payments_add_up_example :
    ((apply_all invoice ((300, 1) ∷ (700, 2) ∷ [])).paid_amount ≡ pos 1000)
    × Says (apply_all invoice ((300, 1) ∷ (700, 2) ∷ [])).status (pos 1000) (pos 1000)
payments_add_up_example =
    payments_add_up invoice 0 ((300, 1) ∷ (700, 2) ∷ []) refl refl (omega arith)
