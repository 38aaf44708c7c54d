-- ===== src/Transfer/Repository.antt =====
-- internal/modules/transfer/infrastructure/repository_sql.go: the statements on the table
-- transfers, with the unique keys of migrations/000002_transfers.up.sql, and the repository.
pub mod Rows
pub mod Locking
pub mod Finding
use go_sunabar_payments.Base.{
  ℕ, ◌+◌, Bool, true, false, ◌||◌, ◌&&◌, List, [], ◌∷◌, ◌++◌, Option, none, some, String, str_eq,
  ◌==◌, if◌then◌else◌,
}
use go_sunabar_payments.Platform.Errors.{
  Error, Result, ok, err, sentinel, already_exists, not_found, concurrent_update, wrapped,
  is_duplicate, duplicate_entry,
}
use go_sunabar_payments.Platform.World.{Db, World, Action, pure, raise, lift, ◌>>=◌, ◌>>◌, on_error}
use go_sunabar_payments.Platform.Sql.{exec_tx, rows_affected, query_db}
use go_sunabar_payments.Transfer.Entity.{Transfer}

-- Two rows agree in a key that is unique: `id`, `app_request_id` or `api_idempotency_key`.
abbrev pub clash : Transfer → Transfer → Bool
clash a b =
    str_eq a.id b.id
    || str_eq a.app_request_id b.app_request_id
    || str_eq a.api_idempotency_key b.api_idempotency_key

abbrev pub clashes : Transfer → List Transfer → Bool
clashes t [] = false
clashes t (r ∷ rows) = clash t r || clashes t rows

-- `INSERT INTO transfers`. The instants are kept as given, where the columns round them to the
-- microsecond.
unfoldable pub insert_row : Transfer → Db → Result (ℕ × Db)
insert_row t db =
    if clashes t db.transfers
    then err duplicate_entry
    else ok (1, record db { transfers = db.transfers ++ t ∷ [] })

-- The columns that `UPDATE transfers` sets.
abbrev pub written : Transfer → Transfer → Transfer
written t row = record row {
  status = t.status;
  apply_no = t.apply_no;
  last_error = t.last_error;
  version = row.version + 1;
  updated_at = t.updated_at;
}

-- `WHERE id=? AND version=?`.
abbrev pub is_current : Transfer → Transfer → Bool
is_current t row = str_eq row.id t.id && row.version == t.version

unfoldable pub update_rows : Transfer → List Transfer → ℕ × List Transfer
update_rows t [] = (0, [])
update_rows t (row ∷ rows) =
    let (n, rows') = update_rows t rows in
    if is_current t row then (n + 1, written t row ∷ rows') else (n, row ∷ rows')

-- `UPDATE transfers`.
unfoldable pub update_row : Transfer → Db → Result (ℕ × Db)
update_row t db =
    let (n, rows) = update_rows t db.transfers in ok (n, record db { transfers = rows })

abbrev pub find_transfer : String → List Transfer → Option Transfer
find_transfer id [] = none
find_transfer id (row ∷ rows) = if str_eq row.id id then some row else find_transfer id rows

abbrev pub find_request : String → List Transfer → Option Transfer
find_request id [] = none
find_request id (row ∷ rows) =
    if str_eq row.app_request_id id then some row else find_request id rows

abbrev pub insert_error : Error → Error
insert_error e = if is_duplicate e then sentinel already_exists else wrapped "insert transfer" e

-- `SQLRepository.Insert`.
unfoldable pub insert : Transfer → Action (Unit {0})
insert t = do on_error insert_error (exec_tx (insert_row t)); pure tt

-- The last steps of `Update`; `t.Version++` is made on the record that is returned.
abbrev pub checked : Transfer → ℕ → Action Transfer
checked t n =
    if n == 0
    then raise (sentinel concurrent_update)
    else pure (record t { version = t.version + 1 })

-- `SQLRepository.Update`.
unfoldable pub update : Transfer → Action Transfer
update t = do
  n ← on_error (wrapped "update transfer") (exec_tx (update_row t))
  n' ← on_error (wrapped "rows affected") (rows_affected n)
  checked t n'

abbrev pub or_not_found : Option Transfer → Result Transfer
or_not_found none = err (sentinel not_found)
or_not_found (some t) = ok t

-- `scanOne`.
unfoldable pub scan_one : (Db → Option Transfer) → Action Transfer
scan_one read = do row ← on_error (wrapped "scan transfer") (query_db read); lift (or_not_found row)

-- `FindByID`.
unfoldable pub find_by_id : String → Action Transfer
unfolding scan_one
find_by_id id = scan_one (λ db. find_transfer id db.transfers)

-- `FindByAppRequestID`.
unfoldable pub find_by_app_request_id : String → Action Transfer
unfolding scan_one
find_by_app_request_id id = scan_one (λ db. find_request id db.transfers)
