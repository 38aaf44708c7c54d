-- ===== src/Reconciliation/Repository.antt =====
-- internal/modules/reconciliation/infrastructure/repository_sql.go: the statements on the tables
-- invoices and incoming_transactions, with the unique keys of the migrations, and the repositories.
pub mod Rows
use go_sunabar_payments.Base.{
  ℕ, Bool, true, false, not, ◌||◌, ◌&&◌, List, [], ◌∷◌, ◌++◌, Option, none, some, String, str_eq,
  ◌==◌, leb, if◌then◌else◌,
}
use go_sunabar_payments.Platform.Errors.{
  Error, Result, ok, err, sentinel, invoice_not_found, invoice_already_exists, wrapped,
  is_duplicate, duplicate_entry,
}
use go_sunabar_payments.Platform.World.{Db, World, Action, pure, raise, lift, ◌>>=◌, ◌>>◌, on_error}
use go_sunabar_payments.Platform.Sql.{statement, exec_tx, rows_affected, query_db}
use go_sunabar_payments.Reconciliation.Invoice.{Invoice, IncomingTransaction}

-- `id` and `virtual_account_id` are unique.
abbrev pub has_invoice : Invoice → List Invoice → Bool
has_invoice i [] = false
has_invoice i (r ∷ rows) =
    (str_eq r.id i.id || str_eq r.virtual_account_id i.virtual_account_id) || has_invoice i rows

-- `INSERT INTO invoices`.
unfoldable pub insert_invoice_row : Invoice → Db → Result (ℕ × Db)
insert_invoice_row i db =
    if has_invoice i db.invoices
    then err duplicate_entry
    else ok (1, record db { invoices = db.invoices ++ i ∷ [] })

abbrev pub invoice_error : Error → Error
invoice_error e =
    if is_duplicate e then sentinel invoice_already_exists else wrapped "insert invoice" e

-- `InvoiceSQLRepository.Insert`.
unfoldable pub insert_invoice : Invoice → Action (Unit {0})
insert_invoice i = do on_error invoice_error (exec_tx (insert_invoice_row i)); pure tt

-- `UPDATE invoices SET … WHERE id=?`.
abbrev pub update_invoices : Invoice → List Invoice → ℕ × List Invoice
update_invoices i [] = (0, [])
update_invoices i (r ∷ rows) =
    let (n, rows') = update_invoices i rows in
    if str_eq r.id i.id
    then (
      n,
      record r { status = i.status; paid_amount = i.paid_amount; updated_at = i.updated_at }
          ∷ rows',
    )
    else (n, r ∷ rows')

unfoldable pub update_invoice_row : Invoice → Db → Result (ℕ × Db)
update_invoice_row i db =
    let (n, rows) = update_invoices i db.invoices in ok (n, record db { invoices = rows })

-- `InvoiceSQLRepository.Update`: neither the version nor the number of rows is checked.
unfoldable pub update_invoice : Invoice → Action (Unit {0})
update_invoice i = do on_error (wrapped "update invoice") (exec_tx (update_invoice_row i)); pure tt

abbrev pub invoice_of_account : String → List Invoice → Option Invoice
invoice_of_account va [] = none
invoice_of_account va (r ∷ rows) =
    if str_eq r.virtual_account_id va then some r else invoice_of_account va rows

abbrev pub invoice_with_id : String → List Invoice → Option Invoice
invoice_with_id id [] = none
invoice_with_id id (r ∷ rows) = if str_eq r.id id then some r else invoice_with_id id rows

abbrev pub or_no_invoice : Option Invoice → Result Invoice
or_no_invoice none = err (sentinel invoice_not_found)
or_no_invoice (some i) = ok i

-- `scanInvoice`.
unfoldable pub scan_invoice : (Db → Option Invoice) → Action Invoice
scan_invoice read = do
  row ← on_error (wrapped "scan invoice") (query_db read)
  lift (or_no_invoice row)

-- `FindByVirtualAccountID`.
unfoldable pub find_by_virtual_account_id : String → Action Invoice
unfolding scan_invoice
find_by_virtual_account_id va = scan_invoice (λ db. invoice_of_account va db.invoices)

-- `InvoiceSQLRepository.FindByID`.
unfoldable pub find_invoice_by_id : String → Action Invoice
unfolding scan_invoice
find_invoice_by_id id = scan_invoice (λ db. invoice_with_id id db.invoices)

-- `id` is unique, and so is `virtual_account_id` with `item_key`.
abbrev pub same_incoming : IncomingTransaction → IncomingTransaction → Bool
same_incoming a b =
    str_eq a.id b.id
    || (str_eq a.virtual_account_id b.virtual_account_id && str_eq a.item_key b.item_key)

abbrev pub has_incoming : IncomingTransaction → List IncomingTransaction → Bool
has_incoming t [] = false
has_incoming t (r ∷ rows) = same_incoming r t || has_incoming t rows

-- `INSERT IGNORE INTO incoming_transactions`.
unfoldable pub insert_incoming_row : IncomingTransaction → Db → Result (ℕ × Db)
insert_incoming_row t db =
    if has_incoming t db.incoming_transactions
    then ok (0, db)
    else ok (1, record db { incoming_transactions = db.incoming_transactions ++ t ∷ [] })

-- `InsertIfNotExists`.
unfoldable pub insert_if_not_exists : IncomingTransaction → Action Bool
insert_if_not_exists t = do
  n ← on_error (wrapped "insert incoming") (exec_tx (insert_incoming_row t))
  n' ← on_error (wrapped "rows affected") (rows_affected n)
  pure (not (n' == 0))

abbrev pub match_rows : String → String → List IncomingTransaction → List IncomingTransaction
match_rows id invoice_id [] = []
match_rows id invoice_id (r ∷ rows) =
    (if str_eq r.id id then record r { matched_invoice_id = some invoice_id } else r)
    ∷ match_rows id invoice_id rows

-- `UPDATE incoming_transactions SET matched_invoice_id=? WHERE id=?`; the rows affected are not read.
unfoldable pub match_row : String → String → Db → Result (ℕ × Db)
match_row id invoice_id db =
    ok (0, record db { incoming_transactions = match_rows id invoice_id db.incoming_transactions })

-- `UpdateMatchedInvoice`.
unfoldable pub update_matched_invoice : String → String → Action (Unit {0})
update_matched_invoice id invoice_id = do
  on_error (wrapped "update matched invoice") (exec_tx (match_row id invoice_id))
  pure tt

abbrev pub incoming_of_account : String → List IncomingTransaction → List IncomingTransaction
incoming_of_account va [] = []
incoming_of_account va (r ∷ rows) =
    if str_eq r.virtual_account_id va
    then r ∷ incoming_of_account va rows
    else incoming_of_account va rows

abbrev pub insert_by_instant :
    IncomingTransaction → List IncomingTransaction → List IncomingTransaction
insert_by_instant t [] = t ∷ []
insert_by_instant t (r ∷ rows) =
    if leb t.occurred_at r.occurred_at then t ∷ r ∷ rows else r ∷ insert_by_instant t rows

-- `ORDER BY occurred_at`.
abbrev pub sort_by_instant : List IncomingTransaction → List IncomingTransaction
sort_by_instant [] = []
sort_by_instant (t ∷ rows) = insert_by_instant t (sort_by_instant rows)

abbrev scan_incoming : List IncomingTransaction → Action (Unit {0})
scan_incoming [] = pure tt
scan_incoming (t ∷ rows) = do on_error (wrapped "scan incoming") statement; scan_incoming rows

-- `ListByVirtualAccount`, with the error of `rows.Err()` returned as it is.
unfoldable pub list_by_virtual_account : String → Action (List IncomingTransaction)
list_by_virtual_account va = do
  rows ←
      on_error (wrapped "list incoming")
        (query_db (λ db. sort_by_instant (incoming_of_account va db.incoming_transactions)))
  scan_incoming rows
  statement
  pure rows
