-- ===== src/Outbox/Relay.antt =====
-- internal/platform/outbox/relay.go: the relay takes due events out of the outbox, hands each to
-- the handler of its type and records the outcome. Its transaction holds row updates until the
-- commit, while a handler commits transactions of its own.
pub mod Backed
pub mod Limit
pub mod Attempts
pub mod Starvation
pub mod Recording
pub mod Settled
use go_sunabar_payments.Base.{
  ℕ, ◌+◌, ◌*◌, Bool, true, false, ◌&&◌, List, [], ◌∷◌, ◌++◌, Option, none, some, String, str_eq,
  leb, take, if◌then◌else◌,
}
use go_sunabar_payments.Base.Int.{ℤ, pos}
use go_sunabar_payments.Platform.Errors.{
  Error, Result, ok, err, skip_attempt, wrapped, errors_is, error_text,
}
use go_sunabar_payments.Platform.World.{Db, World, Action, pure, raise, ◌>>=◌, ◌>>◌, on_error, now}
use go_sunabar_payments.Platform.Sql.{statement, exec_db, rows_affected, query_db, interfere}
use go_sunabar_payments.Transfer.Breaker.{second, or_default}
use go_sunabar_payments.Outbox.Event.{Event, Delivery, pending, sent, failed, OutboxRow}
use go_sunabar_payments.Outbox.Due.{is_pending, due_batch}
use go_sunabar_payments.Outbox.Backoff.{backoff_duration, add_duration}

-- `Handler`.
abbrev pub Handler : Type 0
Handler = Event → Action (Unit {0})

-- `Relay`, with the part of its configuration that decides what it does. The polling interval and
-- the consumer's name do not.
pub record Relay : Type 0 where
  pub batch_size : ℕ
  pub max_attempt : ℕ
  pub handlers : List (String × Handler)

-- `NewRelay`.
unfoldable pub new_relay : ℤ → ℤ → Relay
new_relay batch_size max_attempt = record {
  batch_size = or_default batch_size (pos 100);
  max_attempt = or_default max_attempt (pos 10);
  handlers = [];
}

abbrev pub put_handler : String → Handler → List (String × Handler) → List (String × Handler)
put_handler event_type h [] = (event_type, h) ∷ []
put_handler event_type h ((k, g) ∷ handlers) =
    if str_eq k event_type then (k, h) ∷ handlers else (k, g) ∷ put_handler event_type h handlers

-- `Register`.
unfoldable pub register : Relay → String → Handler → Relay
register r event_type h = record r { handlers = put_handler event_type h r.handlers }

abbrev pub find_handler : String → List (String × Handler) → Option Handler
find_handler event_type [] = none
find_handler event_type ((k, h) ∷ handlers) =
    if str_eq k event_type then some h else find_handler event_type handlers

-- The event of a row, as `rows.Scan` fills it.
abbrev pub event_of : OutboxRow → Event
event_of row = record {
  id = row.id;
  aggregate_type = row.aggregate_type;
  aggregate_id = row.aggregate_id;
  event_type = row.event_type;
  payload = row.payload;
  occurred_at = row.created_at;
}

-- The statements of `dispatch` on the row of an event: SENT at an instant, put off without an
-- attempt counted, FAILED, or put off after one more attempt.
pub data RowUpdate : Type 0 where
  mark_sent : String → ℕ → RowUpdate
  put_off : String → String → ℕ → RowUpdate
  mark_failed : String → ℕ → String → RowUpdate
  retry_later : String → ℕ → String → ℕ → RowUpdate

-- `WHERE id=? AND status='PENDING'`.
abbrev pub matches : String → OutboxRow → Bool
matches id row = str_eq row.id id && is_pending row.status

unfoldable pub update_outbox_row : RowUpdate → OutboxRow → OutboxRow
update_outbox_row (mark_sent id at) row =
    if matches id row
    then record row { status = sent; sent_at = some at; attempt_count = row.attempt_count + 1 }
    else row
update_outbox_row (put_off id message at) row =
    if matches id row then record row { last_error = some message; next_attempt_at = at } else row
update_outbox_row (mark_failed id attempts message) row =
    if matches id row
    then record row { status = failed; attempt_count = attempts; last_error = some message }
    else row
update_outbox_row (retry_later id attempts message at) row =
    if matches id row
    then record row { attempt_count = attempts; last_error = some message; next_attempt_at = at }
    else row

unfoldable pub update_all : RowUpdate → List OutboxRow → List OutboxRow
update_all u [] = []
update_all u (row ∷ rows) = update_outbox_row u row ∷ update_all u rows

-- `skipAttemptBackoff`.
abbrev pub skip_attempt_backoff : ℕ
skip_attempt_backoff = 5 * second

-- An update that the driver refuses is logged and left out.
abbrev pub logged : RowUpdate → Result (Unit {0}) → List RowUpdate
logged u (ok _) = u ∷ []
logged u (err _) = []

unfoldable pub execute_update : RowUpdate → Action (List RowUpdate)
execute_update u w = let (r, w') = statement w in (ok (logged u r), w')

-- What `dispatch` does with the error of a handler.
unfoldable pub settle_error : Relay → String → ℕ → Error → Action (List RowUpdate)
settle_error r id attempt e =
    if errors_is e skip_attempt
    then (do at ← now; execute_update (put_off id (error_text e) (at + skip_attempt_backoff)))
    else if leb r.max_attempt (attempt + 1)
    then execute_update (mark_failed id (attempt + 1) (error_text e))
    else do
      at ← now
      execute_update (
          retry_later id (attempt + 1) (error_text e)
            (add_duration at (backoff_duration (pos (attempt + 1)))))

unfoldable pub settle : Relay → String → ℕ → Result (Unit {0}) → Action (List RowUpdate)
unfolding settle_error
settle r id attempt (ok _) = do at ← now; execute_update (mark_sent id at)
settle r id attempt (err e) = settle_error r id attempt e

abbrev pub handled : Relay → Event → ℕ → Option Handler → Action (List RowUpdate)
handled r e attempt none w = (ok [], w)
handled r e attempt (some h) w = let (res, w') = h e w in settle r e.id attempt res w'

-- `dispatch`: an event of a type with no handler stays as it is.
unfoldable pub dispatch : Relay → Event → ℕ → Action (List RowUpdate)
unfolding settle
dispatch r e attempt = handled r e attempt (find_handler e.event_type r.handlers)

unfoldable pub dispatch_all : Relay → List OutboxRow → Action (List RowUpdate)
unfolding dispatch
dispatch_all r [] = pure []
dispatch_all r (row ∷ rows) = do
  updates ← dispatch r (event_of row) row.attempt_count
  later ← dispatch_all r rows
  pure (updates ++ later)

unfoldable pub scan_rows : List OutboxRow → Action (Unit {0})
scan_rows [] = pure tt
scan_rows (row ∷ rows) = do on_error (wrapped "relay scan") statement; scan_rows rows

-- Which rows the transactions of other workers have locked by now.
unfoldable pub row_locks : Action (String → Bool)
row_locks w = (ok (w.outside.locked w.ticks), w)

-- The selection of the batch, up to `rows.Close`.
unfoldable pub select_batch : Relay → Action (List OutboxRow)
unfolding scan_rows
select_batch r = do
  at ← now
  locked ← row_locks
  rows ←
      on_error (wrapped "relay select pending")
        (query_db (λ db. due_batch locked at r.batch_size db.outbox_events))
  scan_rows rows
  on_error (wrapped "relay rows iter") statement
  on_error (wrapped "relay rows close") statement
  pure rows

unfoldable pub write_all : List RowUpdate → List OutboxRow → List OutboxRow
write_all [] rows = rows
write_all (u ∷ updates) rows = write_all updates (update_all u rows)

-- The commit of the relay's transaction: its updates, on the rows as they are by then.
unfoldable pub commit_updates :
    List RowUpdate → Result (Unit {0}) × World → Result (Unit {0}) × World
commit_updates updates (ok _, w) = (
  ok tt,
  record w {
    committed = record w.committed { outbox_events = write_all updates w.committed.outbox_events };
  },
)
commit_updates updates (err e, w) = (err (wrapped "relay commit" e), w)

-- The handlers are run and the updates committed. `dispatch` returns no error.
unfoldable pub deliver_batch : Relay → List OutboxRow → Action (Unit {0})
unfolding commit_updates
deliver_batch r rows = do updates ← dispatch_all r rows; (λ w. commit_updates updates (statement w))

-- An early return rolls back; a rollback that fails is logged.
unfoldable pub give_up : Error → World → Result (Unit {0}) × World
give_up e w = (err e, (statement w).1)

unfoldable pub selected : Relay → Result (List OutboxRow) × World → Result (Unit {0}) × World
unfolding give_up
selected r (ok rows, w) = deliver_batch r rows w
selected r (err e, w) = give_up e w

unfoldable pub batch_begun : Relay → Result (Unit {0}) × World → Result (Unit {0}) × World
unfolding selected select_batch
batch_begun r (ok _, w) = selected r (select_batch r w)
batch_begun r (err e, w) = (err (wrapped "relay begin" e), w)

-- `ProcessBatch`.
unfoldable pub process_batch : Relay → Action (Unit {0})
unfolding batch_begun
process_batch r w = batch_begun r (statement (interfere w))

-- `Run`, for as many ticks as come before it is cancelled: an error of a batch is logged.
unfoldable pub run : List (Unit {0}) → Relay → World → World
run [] r w = w
run (_ ∷ polls) r w = run polls r (process_batch r w).1
