-- ===== src/Reconciliation/Reconcile.antt =====
-- internal/modules/reconciliation/application/usecase.go: issuing invoices, and matching the
-- payments that have come in on a virtual account.
pub mod Effects
use go_sunabar_payments.Base.{
  ℕ, ◌+◌, ◌-◌, ◌*◌, Bool, true, false, not, ◌||◌, List, [], ◌∷◌, Option, none, some, String, str_eq,
  ◌==◌, if◌then◌else◌,
}
use go_sunabar_payments.Base.Int.{ℤ, pos, leb_ℤ}
use go_sunabar_payments.Platform.Errors.{
  Error, Result, ok, err, invoice_not_found, wrapped, errors_is,
}
use go_sunabar_payments.Platform.Bank.{Transaction}
use go_sunabar_payments.Platform.World.{
  Db, World, Action, pure, raise, ◌>>=◌, ◌>>◌, on_error, now, new_id,
}
use go_sunabar_payments.Platform.Sql.{do_tx}
use go_sunabar_payments.Transfer.Breaker.{second}
use go_sunabar_payments.Outbox.Event.{Event}
use go_sunabar_payments.Outbox.Publisher.{publish}
use go_sunabar_payments.Reconciliation.Invoice.{
  InvoiceStatus, invoice_open, invoice_partial, invoice_cleared, invoice_excess,
  invoice_status_text, Invoice, new_invoice, apply_payment, new_incoming_transaction,
}
use go_sunabar_payments.Reconciliation.Payload.{
  event_reconciliation_completed, event_reconciliation_excess, event_reconciliation_partial,
  marshal_reconciliation,
}
use go_sunabar_payments.Reconciliation.Repository.{
  insert_invoice, update_invoice, find_by_virtual_account_id, insert_if_not_exists,
  update_matched_invoice,
}

-- `optString`.
abbrev pub opt_string : String → Option String
opt_string s = if str_eq s "" then none else some s

-- `IssueInvoiceCommand`.
pub record IssueInvoiceCommand : Type 0 where
  pub amount : ℤ
  pub virtual_account_id : String
  pub memo : String

-- `IssueInvoiceUseCase.Execute`.
unfoldable pub issue_invoice : IssueInvoiceCommand → Action Invoice
issue_invoice cmd = do
  id ← new_id
  at ← now
  let inv = new_invoice id cmd.amount cmd.virtual_account_id (opt_string cmd.memo) at
  do_tx (insert_invoice inv)
  pure inv

-- `ReconcileResult`.
pub record ReconcileResult : Type 0 where
  pub new_incomings : ℕ
  pub matched_invoice : Option Invoice

-- `lookbackHr`, 24 hours.
abbrev pub lookback : ℕ
lookback = 24 * 3600 * second

-- `mapStatusToEvent`.
unfoldable pub map_status_to_event : InvoiceStatus → String
map_status_to_event invoice_cleared = event_reconciliation_completed
map_status_to_event invoice_excess = event_reconciliation_excess
map_status_to_event invoice_partial = event_reconciliation_partial
map_status_to_event invoice_open = ""

abbrev pub invoice_event : String → Invoice → ℕ → Event
invoice_event id inv at = record {
  id = id;
  aggregate_type = "invoice";
  aggregate_id = inv.id;
  event_type = map_status_to_event inv.status;
  payload = marshal_reconciliation (record {
    invoice_id = inv.id;
    virtual_account_id = inv.virtual_account_id;
    amount = inv.amount;
    paid_amount = inv.paid_amount;
    status = invoice_status_text inv.status;
  });
  occurred_at = at;
}

-- `publishStateEvent`.
unfoldable pub publish_state_event : Invoice → Action (Unit {0})
publish_state_event inv =
    if str_eq (map_status_to_event inv.status) ""
    then pure tt
    else do id ← new_id; at ← now; publish (invoice_event id inv at)

-- An incoming payment: a credit of a positive amount.
abbrev pub is_payment : Transaction → Bool
is_payment item = not (not (str_eq item.transaction_type "credit") || leb_ℤ item.amount (pos 0))

-- `time.Parse`, whose error is passed over.
unfoldable pub parse_date : String → Action ℕ
parse_date s w = (ok (w.outside.parse_date s), w)

-- The invoice, if there is one, and the number of new payments, once a new payment is in the table.
unfoldable pub matched : ℕ → String → Transaction → Option Invoice × ℕ → Action (Option Invoice × ℕ)
matched at id item (none, n) = pure (none, n + 1)
matched at id item (some inv, n) = do
  update_matched_invoice id inv.id
  pure (some (apply_payment inv item.amount at), n + 1)

-- One turn of the loop of `applyIncomings`.
unfoldable pub apply_incoming :
    String → ℕ → Transaction → Option Invoice × ℕ → Action (Option Invoice × ℕ)
apply_incoming va at item acc = if not (is_payment item) then pure acc else do
  id ← new_id
  occurred ← parse_date item.transaction_date
  inserted ← insert_if_not_exists (
      new_incoming_transaction id va item.item_key item.amount (opt_string item.remarks) occurred
        at)
  if inserted then matched at id item acc else pure acc

-- `applyIncomings`.
unfoldable pub apply_incomings :
    String → ℕ → List Transaction → Option Invoice × ℕ → Action (Option Invoice × ℕ)
apply_incomings va at [] acc = pure acc
apply_incomings va at (item ∷ items) acc = do
  acc' ← apply_incoming va at item acc
  apply_incomings va at items acc'

-- After the lookup of the invoice: none is no error.
unfoldable pub invoice_or_none : Result Invoice → Action (Option Invoice)
invoice_or_none (ok inv) = pure (some inv)
invoice_or_none (err e) = if errors_is e invoice_not_found then pure none else raise e

unfoldable pub lookup_invoice : String → Action (Option Invoice)
unfolding invoice_or_none
lookup_invoice va w = let (r, w') = find_by_virtual_account_id va w in invoice_or_none r w'

-- The end of the transaction: the invoice is written and told of if something new has come in.
unfoldable pub close_invoice : Option Invoice × ℕ → Action ReconcileResult
close_invoice (none, n) = pure (record { new_incomings = n; matched_invoice = none })
close_invoice (some inv, n) =
    if n == 0 then pure (record { new_incomings = n; matched_invoice = none }) else do
      update_invoice inv
      publish_state_event inv
      pure (record { new_incomings = n; matched_invoice = some inv })

-- The transaction.
unfoldable pub reconcile_body : String → ℕ → List Transaction → Action ReconcileResult
reconcile_body va at items = do
  inv ← lookup_invoice va
  acc ← apply_incomings va at items (inv, 0)
  close_invoice acc

-- `client.ListTransactions`.
unfoldable pub list_transactions : String → ℕ → ℕ → Action (List Transaction)
list_transactions va from to w =
    (w.outside.list_transactions w.calls va from to, record w { calls = w.calls + 1 })

-- `ReconcileVirtualAccountUseCase.Execute`.
unfoldable pub reconcile : String → Action ReconcileResult
reconcile va = do
  at ← now
  items ← on_error (wrapped "list transactions") (list_transactions va (at - lookback) at)
  do_tx (reconcile_body va at items)
