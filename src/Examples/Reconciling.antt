-- ===== src/Examples/Reconciling.antt =====
-- Payments on a virtual account.
use go_sunabar_payments.Base.{◌≡◌, refl, ◌≢◌, true, [], none}
use go_sunabar_payments.Base.Int.{pos}
use go_sunabar_payments.Platform.Errors.{ok, err, api_error, wrapped}
use go_sunabar_payments.Platform.World.{World, pure, ◌>>=◌, on_error, now}
use go_sunabar_payments.Platform.Sql.{statement, on_working, exec_tx, rows_affected}
use go_sunabar_payments.Reconciliation.Invoice.{IncomingTransaction}
use go_sunabar_payments.Reconciliation.Repository.{insert_incoming_row, insert_if_not_exists}
use go_sunabar_payments.Reconciliation.Repository.Rows.{taken_in_once}
use go_sunabar_payments.Reconciliation.Reconcile.{list_transactions, reconcile}
use go_sunabar_payments.Reconciliation.Reconcile.Effects.{failed_reconciliation}
use go_sunabar_payments.Examples.Data.{outside, empty_world}

abbrev payment : IncomingTransaction
payment = record {
  id = "in-1";
  virtual_account_id = "va-1";
  item_key = "item-1";
  amount = pos 700;
  remarks = none;
  occurred_at = 0;
  matched_invoice_id = none;
  created_at = 0;
}

abbrev seen_again : IncomingTransaction
seen_again = record payment { id = "in-2" }

abbrev world_taken : World
world_taken = (insert_if_not_exists payment empty_world).1

taken_in_once_example : (insert_if_not_exists seen_again world_taken).0 ≢ ok true
unfolding insert_if_not_exists insert_incoming_row exec_tx on_working rows_affected statement
    on_error pure ◌>>=◌
taken_in_once_example =
    taken_in_once payment seen_again empty_world world_taken [] refl refl refl refl

abbrev world_silent : World
world_silent = record empty_world {
  outside = record outside { list_transactions = λ n account from to. err (api_error 503 "busy") };
}

failed_reconciliation_example : (reconcile "va-1" world_silent).1.committed ≡ world_silent.committed
unfolding reconcile list_transactions now on_error ◌>>=◌
failed_reconciliation_example =
    failed_reconciliation "va-1" world_silent
      {x = wrapped "list transactions" (api_error 503 "busy")} refl refl
