-- ===== src/Reconciliation/Repository/Rows.antt =====
-- An entry of a bank statement is taken in once
-- (internal/modules/reconciliation/infrastructure/repository_sql.go).
use go_sunabar_payments.Base.{◌≡◌, ap, ◌∙◌, ◌≢◌, true, false, List, [], ◌∷◌, ◌++◌, eq_iff, arith}
use mathlib.Core.List.{append_assoc}
use go_sunabar_payments.Platform.Errors.{ok}
use go_sunabar_payments.Platform.World.{World, pure, ◌>>=◌, on_error}
use go_sunabar_payments.Platform.Sql.{exec_tx, rows_affected}
use go_sunabar_payments.Platform.Sql.Keeps.{working-statement}
use go_sunabar_payments.Reconciliation.Invoice.{IncomingTransaction}
use go_sunabar_payments.Reconciliation.Repository.{
  has_incoming, insert_incoming_row, insert_if_not_exists,
}

-- A success that reports a new row has added it; the row was not there.
pub insert_if_not_exists_ok :
    (t : IncomingTransaction) (w : World)
    → (insert_if_not_exists t w).0 ≡ ok true
    → (has_incoming t w.working.incoming_transactions ≡ false)
      × ((insert_if_not_exists t w).1.working.incoming_transactions
          ≡ w.working.incoming_transactions ++ t ∷ [])
unfolding insert_if_not_exists insert_incoming_row exec_tx rows_affected on_error pure ◌>>=◌
insert_if_not_exists_ok t w h =
    ground (arith, working-statement w, working-statement (exec_tx (insert_incoming_row t) w).1)

has_incoming-append :
    (t t' : IncomingTransaction) (xs ys : List IncomingTransaction)
    → t'.virtual_account_id ≡ t.virtual_account_id
    → t'.item_key ≡ t.item_key
    → has_incoming t' (xs ++ t ∷ ys) ≡ true
has_incoming-append t t' [] ys v k =
    ground (arith, eq_iff t.virtual_account_id t'.virtual_account_id, eq_iff t.item_key t'.item_key)
has_incoming-append t t' (x ∷ xs) ys v k = ground (arith, has_incoming-append t t' xs ys)

-- Once an entry of an account's statement has been taken in, no later one of the same account and
-- key is reported as new, whatever its amount, as long as rows are only added to the table.
pub taken_in_once :
    (t t' : IncomingTransaction) (w w' : World) (more : List IncomingTransaction)
    → (insert_if_not_exists t w).0 ≡ ok true
    → t'.virtual_account_id ≡ t.virtual_account_id
    → t'.item_key ≡ t.item_key
    → w'.working.incoming_transactions
      ≡ (insert_if_not_exists t w).1.working.incoming_transactions ++ more
    → (insert_if_not_exists t' w').0 ≢ ok true
taken_in_once t t' w w' more first v k kept second =
    let (_, added) = insert_if_not_exists_ok t w first in
    let (fresh, _) = insert_if_not_exists_ok t' w' second in
    let seen : has_incoming t' w'.working.incoming_transactions ≡ true =
      ap (has_incoming t') (
        kept
        ∙ ap (λ l. l ++ more) added
        ∙ append_assoc w.working.incoming_transactions (t ∷ []) more)
      ∙ has_incoming-append t t' w.working.incoming_transactions more v k in
    ground arith
