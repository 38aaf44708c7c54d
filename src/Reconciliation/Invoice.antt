-- ===== src/Reconciliation/Invoice.antt =====
-- internal/modules/reconciliation/domain/invoice.go: invoices, whose state follows from what has
-- been paid, and incoming payments. Amounts are int64 and wrap.
pub mod Payments
use go_sunabar_payments.Base.{ℕ, Bool, Option, none, String, if◌then◌else◌}
use go_sunabar_payments.Base.Int.{ℤ, pos, ◌+ℤ◌, eqb_ℤ, ltb_ℤ, wrap64}

pub data InvoiceStatus : Type 0 where
  invoice_open invoice_partial invoice_cleared invoice_excess : InvoiceStatus

-- The texts of the states.
abbrev pub invoice_status_text : InvoiceStatus → String
invoice_status_text invoice_open = "OPEN"
invoice_status_text invoice_partial = "PARTIAL"
invoice_status_text invoice_cleared = "CLEARED"
invoice_status_text invoice_excess = "EXCESS"

pub record Invoice : Type 0 where
  pub id : String
  pub amount : ℤ
  pub virtual_account_id : String
  pub status : InvoiceStatus
  pub paid_amount : ℤ
  pub memo : Option String
  pub created_at : ℕ
  pub updated_at : ℕ

unfoldable pub new_invoice : String → ℤ → String → Option String → ℕ → Invoice
new_invoice id amount va_id memo now = record {
  id = id;
  amount = amount;
  virtual_account_id = va_id;
  status = invoice_open;
  paid_amount = pos 0;
  memo = memo;
  created_at = now;
  updated_at = now;
}

-- The `switch` of `Apply`.
unfoldable pub status_for : ℤ → ℤ → InvoiceStatus
status_for paid amount =
    if eqb_ℤ paid (pos 0)
    then invoice_open
    else if ltb_ℤ paid amount
    then invoice_partial
    else if eqb_ℤ paid amount
    then invoice_cleared
    else invoice_excess

-- `Invoice.Apply`.
unfoldable pub apply_payment : Invoice → ℤ → ℕ → Invoice
unfolding status_for
apply_payment i paid_delta now =
    let paid = wrap64 (i.paid_amount +ℤ paid_delta) in
    record i { paid_amount = paid; status = status_for paid i.amount; updated_at = now }

pub record IncomingTransaction : Type 0 where
  pub id : String
  pub virtual_account_id : String
  pub item_key : String
  pub amount : ℤ
  pub remarks : Option String
  pub occurred_at : ℕ
  pub matched_invoice_id : Option String
  pub created_at : ℕ

unfoldable pub new_incoming_transaction :
    String → String → String → ℤ → Option String → ℕ → ℕ → IncomingTransaction
new_incoming_transaction id va_id item_key amount remarks occurred_at now = record {
  id = id;
  virtual_account_id = va_id;
  item_key = item_key;
  amount = amount;
  remarks = remarks;
  occurred_at = occurred_at;
  matched_invoice_id = none;
  created_at = now;
}
