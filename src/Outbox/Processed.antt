-- ===== src/Outbox/Processed.antt =====
-- `MarkProcessed` of internal/platform/outbox/relay.go: which consumer has seen which event.
pub mod Once
use go_sunabar_payments.Base.{
  ℕ, Bool, true, false, ◌||◌, ◌&&◌, List, [], ◌∷◌, ◌++◌, String, str_eq, ◌==◌, if◌then◌else◌,
}
use go_sunabar_payments.Platform.Errors.{Result, ok, sentinel, already_processed, wrapped}
use go_sunabar_payments.Platform.World.{Db, Action, pure, raise, ◌>>=◌, on_error}
use go_sunabar_payments.Platform.Sql.{exec_db, rows_affected}

abbrev pub is_processed : String → String → List (String × String) → Bool
is_processed id consumer [] = false
is_processed id consumer ((i, c) ∷ rows) =
    str_eq i id && str_eq c consumer || is_processed id consumer rows

-- `INSERT IGNORE INTO event_processed`; the instant that the row also holds is read by nothing.
unfoldable pub insert_processed : String → String → Db → Result (ℕ × Db)
insert_processed id consumer db =
    if is_processed id consumer db.event_processed
    then ok (0, db)
    else ok (1, record db { event_processed = db.event_processed ++ (id, consumer) ∷ [] })

unfoldable pub mark_processed : String → String → Action (Unit {0})
mark_processed id consumer = do
  n ← on_error (wrapped "mark processed") (exec_db (insert_processed id consumer))
  n' ← on_error (wrapped "mark processed rows affected") (rows_affected n)
  if n' == 0 then raise (sentinel already_processed) else pure tt
