-- ===== src/Platform/Sql.antt =====
-- internal/platform/transaction/manager_sql.go, and the SQL statements of the repositories as
-- actions: a statement fails as the driver decides, or else is run on the tables.
pub mod Keeps
pub mod Atomicity
pub mod Never
pub mod Preserves
use go_sunabar_payments.Base.{ℕ, List, [], ◌∷◌, Option, none, some, Bool, if◌then◌else◌}
use go_sunabar_payments.Platform.Errors.{
  Error, Result, ok, err, tx_done, wrapped, annotated, errors_is,
}
use go_sunabar_payments.Platform.World.{Db, World, Action, pure, raise, ◌>>=◌, ◌>>◌}

statement_in : List (Option Error) → Action (Unit {0})
statement_in [] w = (ok tt, w)
statement_in (none ∷ faults) w = (ok tt, record w { faults = faults })
statement_in (some e ∷ faults) w = (err e, record w { faults = faults })

-- Whether the driver carries out the next request.
unfoldable pub statement : Action (Unit {0})
unfolding statement_in
statement w = statement_in w.faults w

stored : Result (ℕ × Db) → Action ℕ
stored (ok (n, db)) w = (ok n, record w { working = db })
stored (err e) w = (err e, w)

unfoldable pub on_working : (Db → Result (ℕ × Db)) → Action ℕ
unfolding stored
on_working run w = stored (run w.working) w

-- `tx.SQL().ExecContext`: the rows affected.
unfoldable pub exec_tx : (Db → Result (ℕ × Db)) → Action ℕ
unfolding on_working
exec_tx run = do statement; on_working run

auto_committed : Result (ℕ × Db) → Action ℕ
auto_committed (ok (n, db)) w = (ok n, record w { committed = db })
auto_committed (err e) w = (err e, w)

on_committed : (Db → Result (ℕ × Db)) → Action ℕ
unfolding auto_committed
on_committed run w = auto_committed (run w.committed) w

-- `db.ExecContext`, outside any transaction.
unfoldable pub exec_db : (Db → Result (ℕ × Db)) → Action ℕ
unfolding on_committed
exec_db run = do statement; on_committed run

-- `res.RowsAffected()`.
unfoldable pub rows_affected : ℕ → Action ℕ
rows_affected n = do statement; pure n

unfoldable pub read_committed {ℓ} : {A : Type ℓ} → (Db → A) → Action A
read_committed read w = (ok (read w.committed), w)

-- `db.QueryRowContext` and `db.QueryContext`: also within a transaction these read what is committed.
unfoldable pub query_db {ℓ} : {A : Type ℓ} → (Db → A) → Action A
unfolding read_committed
query_db read = do statement; (read_committed read)

abbrev pub apply_first : List (Db → Db) → Db → Db
apply_first [] db = db
apply_first (o ∷ others) db = o db

abbrev pub rest_of : List (Db → Db) → List (Db → Db)
rest_of [] = []
rest_of (o ∷ others) = others

-- The database once the others have committed what comes before the next transaction.
abbrev pub interfered : World → Db
interfered w = apply_first w.others w.committed

unfoldable pub interfere : World → World
interfere w = record w { committed = interfered w; others = rest_of w.others }

module _ {ℓ} {A : Type ℓ} where
  unfoldable pub rolled_back : Error → Result (Unit {0}) × World → Result A × World
  rolled_back e (ok _, w) = (err e, w)
  rolled_back e (err rb, w) = (err (if errors_is rb tx_done then e else annotated e rb), w)

  -- `Rollback` after a failed `Commit` returns `sql.ErrTxDone`, which is passed over.
  unfoldable pub committed_with : A → Result (Unit {0}) × World → Result A × World
  committed_with a (ok _, w) = (ok a, record w { committed = w.working })
  committed_with a (err e, w) = (err (wrapped "transaction commit" e), w)

  unfoldable pub finished : Result A × World → Result A × World
  finished (ok a, w) = committed_with a (statement w)
  finished (err e, w) = rolled_back e (statement w)

  unfoldable pub begun : Action A → Result (Unit {0}) × World → Result A × World
  begun fn (ok _, w) = finished (fn (record w { working = w.committed }))
  begun fn (err e, w) = (err (wrapped "transaction begin" e), w)

  -- `SQLManager.Do`. A panic in `fn` is not modelled.
  unfoldable pub do_tx : Action A → Action A
  unfolding begun finished committed_with rolled_back interfere
  do_tx fn w = begun fn (statement (interfere w))
