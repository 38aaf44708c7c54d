-- ===== src/Account/Repository.antt =====
-- internal/modules/account/infrastructure/repository_sql.go: the statements on the tables accounts and
-- virtual_accounts, with the unique keys of migrations/000003_accounts.up.sql, and the repositories. A
-- flag that is written as 1 or 0 is read back as it was.
pub mod Rows
use go_sunabar_payments.Base.{
  ℕ, Bool, true, false, ◌||◌, List, [], ◌∷◌, ◌++◌, Option, none, some, String, str_eq, ◌==◌, leb,
  if◌then◌else◌,
}
use go_sunabar_payments.Platform.Errors.{
  Error, Result, ok, err, sentinel, account_not_found, wrapped, duplicate_entry,
}
use go_sunabar_payments.Platform.World.{Db, World, Action, pure, raise, lift, ◌>>=◌, ◌>>◌, on_error}
use go_sunabar_payments.Platform.Sql.{statement, exec_tx, query_db}
use go_sunabar_payments.Account.Entity.{Account, VirtualAccount, VirtualAccountRow}

-- `ON DUPLICATE KEY UPDATE`: the identifier, the label and the time of creation of the row stay.
abbrev pub overwritten : Account → Account → Account
overwritten a row = record row {
  branch_code = a.branch_code;
  account_number = a.account_number;
  account_type_code = a.account_type_code;
  account_name = a.account_name;
  primary_flag = a.primary_flag;
  updated_at = a.updated_at;
}

abbrev pub has_id : String → List Account → Bool
has_id id [] = false
has_id id (row ∷ rows) = str_eq row.id id || has_id id rows

abbrev pub has_account_id : String → List Account → Bool
has_account_id account_id [] = false
has_account_id account_id (row ∷ rows) =
    str_eq row.account_id account_id || has_account_id account_id rows

-- The first row of the `id`, or of the `account_id`, is overwritten.
abbrev pub overwrite_id : Account → List Account → List Account
overwrite_id a [] = []
overwrite_id a (row ∷ rows) =
    if str_eq row.id a.id then overwritten a row ∷ rows else row ∷ overwrite_id a rows

abbrev pub overwrite_account_id : Account → List Account → List Account
overwrite_account_id a [] = []
overwrite_account_id a (row ∷ rows) =
    if str_eq row.account_id a.account_id
    then overwritten a row ∷ rows
    else row ∷ overwrite_account_id a rows

-- The rows after the upsert: a clash of the primary key is found before one of `account_id`.
unfoldable pub upsert_rows : Account → List Account → List Account
upsert_rows a rows =
    if has_id a.id rows
    then overwrite_id a rows
    else if has_account_id a.account_id rows
    then overwrite_account_id a rows
    else rows ++ a ∷ []

unfoldable pub upsert_row : Account → Db → Result (ℕ × Db)
upsert_row a db = ok (1, record db { accounts = upsert_rows a db.accounts })

-- `UpsertByAccountID`.
unfoldable pub upsert_by_account_id : Account → Action (Unit {0})
upsert_by_account_id a = do on_error (wrapped "upsert account") (exec_tx (upsert_row a)); pure tt

abbrev pub account_with : String → List Account → Option Account
account_with account_id [] = none
account_with account_id (row ∷ rows) =
    if str_eq row.account_id account_id then some row else account_with account_id rows

abbrev pub or_not_found {ℓ} : {A : Type ℓ} → Option A → Result A
or_not_found none = err (sentinel account_not_found)
or_not_found (some a) = ok a

-- `FindByAccountID`, with `scanAccount`.
unfoldable pub find_by_account_id : String → Action Account
find_by_account_id account_id = do
  row ← on_error (wrapped "scan account") (query_db (λ db. account_with account_id db.accounts))
  lift (or_not_found row)

abbrev pub insert_by_creation : Account → List Account → List Account
insert_by_creation a [] = a ∷ []
insert_by_creation a (row ∷ rows) =
    if leb a.created_at row.created_at then a ∷ row ∷ rows else row ∷ insert_by_creation a rows

-- `ORDER BY created_at`; rows of one instant keep the order of the table.
abbrev pub by_creation : List Account → List Account
by_creation [] = []
by_creation (a ∷ rows) = insert_by_creation a (by_creation rows)

abbrev scan_each {ℓ} : {A : Type ℓ} → String → List A → Action (Unit {0})
scan_each context [] = pure tt
scan_each context (row ∷ rows) = do on_error (wrapped context) statement; scan_each context rows

-- `AccountSQLRepository.ListAll`, with the error of `rows.Err()` returned as it is.
unfoldable pub list_all_accounts : Action (List Account)
list_all_accounts = do
  rows ← on_error (wrapped "list accounts") (query_db (λ db. by_creation db.accounts))
  scan_each "scan account" rows
  statement
  pure rows

-- `dateOrNil`.
abbrev pub date_or_nil : (ℕ → String) → Option ℕ → Option String
date_or_nil format_date none = none
date_or_nil format_date (some at) = if at == 0 then none else some (format_date at)

abbrev pub row_of : (ℕ → String) → VirtualAccount → VirtualAccountRow
row_of format_date va = record {
  id = va.id;
  virtual_account_id = va.virtual_account_id;
  branch_code = va.branch_code;
  account_number = va.account_number;
  memo = va.memo;
  expires_on = date_or_nil format_date va.expires_on;
  invoice_id = va.invoice_id;
  created_at = va.created_at;
  updated_at = va.updated_at;
}

-- `id` and `virtual_account_id` are unique.
abbrev pub has_virtual_account : VirtualAccountRow → List VirtualAccountRow → Bool
has_virtual_account v [] = false
has_virtual_account v (row ∷ rows) =
    (str_eq row.id v.id || str_eq row.virtual_account_id v.virtual_account_id)
    || has_virtual_account v rows

-- `INSERT INTO virtual_accounts`.
unfoldable pub insert_virtual_account_row : VirtualAccountRow → Db → Result (ℕ × Db)
insert_virtual_account_row v db =
    if has_virtual_account v db.virtual_accounts
    then err duplicate_entry
    else ok (1, record db { virtual_accounts = db.virtual_accounts ++ v ∷ [] })

-- `VirtualAccountSQLRepository.Insert`: a duplicate is an error as any other.
unfoldable pub insert_virtual_account : VirtualAccount → Action (Unit {0})
insert_virtual_account va = do
  on_error (wrapped "insert virtual account")
      (λ w. exec_tx (insert_virtual_account_row (row_of w.outside.format_date va)) w)
  pure tt

abbrev day_of : (String → ℕ) → Option String → Option ℕ
day_of parse_date none = none
day_of parse_date (some day) = some (parse_date day)

-- `scanVA`: the driver reads a day as an instant.
abbrev pub virtual_account_of : (String → ℕ) → VirtualAccountRow → VirtualAccount
virtual_account_of parse_date row = record {
  id = row.id;
  virtual_account_id = row.virtual_account_id;
  branch_code = row.branch_code;
  account_number = row.account_number;
  memo = row.memo;
  expires_on = day_of parse_date row.expires_on;
  invoice_id = row.invoice_id;
  created_at = row.created_at;
  updated_at = row.updated_at;
}

abbrev pub virtual_account_with : String → List VirtualAccountRow → Option VirtualAccountRow
virtual_account_with va_id [] = none
virtual_account_with va_id (row ∷ rows) =
    if str_eq row.virtual_account_id va_id then some row else virtual_account_with va_id rows

-- `FindByVirtualAccountID`, with `scanVA`.
unfoldable pub find_virtual_account : String → Action VirtualAccount
find_virtual_account va_id = do
  found ←
      on_error (wrapped "scan virtual account")
        (query_db (λ db. virtual_account_with va_id db.virtual_accounts))
  row ← lift (or_not_found found)
  λ w. (ok (virtual_account_of w.outside.parse_date row), w)

abbrev pub insert_va_by_creation :
    VirtualAccountRow → List VirtualAccountRow → List VirtualAccountRow
insert_va_by_creation v [] = v ∷ []
insert_va_by_creation v (row ∷ rows) =
    if leb v.created_at row.created_at then v ∷ row ∷ rows else row ∷ insert_va_by_creation v rows

abbrev pub va_by_creation : List VirtualAccountRow → List VirtualAccountRow
va_by_creation [] = []
va_by_creation (v ∷ rows) = insert_va_by_creation v (va_by_creation rows)

abbrev all_of : (String → ℕ) → List VirtualAccountRow → List VirtualAccount
all_of parse_date [] = []
all_of parse_date (row ∷ rows) = virtual_account_of parse_date row ∷ all_of parse_date rows

-- `VirtualAccountSQLRepository.ListAll`.
unfoldable pub list_all_virtual_accounts : Action (List VirtualAccount)
list_all_virtual_accounts = do
  rows ←
      on_error (wrapped "list virtual accounts")
        (query_db (λ db. va_by_creation db.virtual_accounts))
  scan_each "scan virtual account" rows
  statement
  λ w. (ok (all_of w.outside.parse_date rows), w)
