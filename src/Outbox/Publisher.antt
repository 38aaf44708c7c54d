-- ===== src/Outbox/Publisher.antt =====
-- internal/platform/outbox/publisher.go: writing an event in the transaction of the business data.
pub mod Effect
use go_sunabar_payments.Base.{
  ℕ, Bool, true, false, ◌||◌, List, [], ◌∷◌, ◌++◌, none, String, str_eq, if◌then◌else◌,
}
use go_sunabar_payments.Platform.Errors.{Result, ok, err, wrapped, duplicate_entry}
use go_sunabar_payments.Platform.World.{Db, Action, pure, ◌>>=◌, ◌>>◌, on_error, now}
use go_sunabar_payments.Platform.Sql.{exec_tx}
use go_sunabar_payments.Outbox.Event.{Event, OutboxRow, pending}

abbrev pub has_event : String → List OutboxRow → Bool
has_event id [] = false
has_event id (r ∷ rows) = str_eq r.id id || has_event id rows

-- The row of a new event: PENDING, with no attempt made, due at once.
abbrev pub new_row : Event → ℕ → OutboxRow
new_row e at = record {
  id = e.id;
  aggregate_type = e.aggregate_type;
  aggregate_id = e.aggregate_id;
  event_type = e.event_type;
  payload = e.payload;
  status = pending;
  attempt_count = 0;
  next_attempt_at = at;
  last_error = none;
  created_at = at;
  sent_at = none;
}

-- `INSERT INTO outbox_events`; `id` is the primary key.
unfoldable pub insert_event : OutboxRow → Db → Result (ℕ × Db)
insert_event row db =
    if has_event row.id db.outbox_events
    then err duplicate_entry
    else ok (1, record db { outbox_events = db.outbox_events ++ row ∷ [] })

-- `SQLPublisher.Publish`.
unfoldable pub publish : Event → Action (Unit {0})
publish e = do
  at ← now
  on_error (wrapped "outbox publish") (exec_tx (insert_event (new_row e at)))
  pure tt
