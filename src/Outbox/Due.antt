-- ===== src/Outbox/Due.antt =====
-- The rows that a query of `ProcessBatch` (internal/platform/outbox/relay.go) selects.
pub mod Selection
pub mod Ahead
use go_sunabar_payments.Base.{
  ℕ, Bool, String, true, false, ◌&&◌, List, [], ◌∷◌, leb, take, if◌then◌else◌,
}
use go_sunabar_payments.Outbox.Event.{Delivery, pending, sent, failed, OutboxRow}

abbrev pub is_pending : Delivery → Bool
is_pending pending = true
is_pending sent = false
is_pending failed = false

-- `WHERE status='PENDING' AND next_attempt_at <= ?`.
abbrev pub is_due : ℕ → OutboxRow → Bool
is_due at row = is_pending row.status && leb row.next_attempt_at at

abbrev pub due_rows : ℕ → List OutboxRow → List OutboxRow
due_rows at [] = []
due_rows at (row ∷ rows) = if is_due at row then row ∷ due_rows at rows else due_rows at rows

unfoldable pub insert_by_time : OutboxRow → List OutboxRow → List OutboxRow
insert_by_time row [] = row ∷ []
insert_by_time row (r ∷ rows) =
    if leb row.next_attempt_at r.next_attempt_at
    then row ∷ r ∷ rows
    else r ∷ insert_by_time row rows

-- `ORDER BY next_attempt_at`; rows of one instant keep the order of the table.
unfoldable pub sort_by_time : List OutboxRow → List OutboxRow
unfolding insert_by_time
sort_by_time [] = []
sort_by_time (row ∷ rows) = insert_by_time row (sort_by_time rows)

-- `SKIP LOCKED`: the rows that no other worker has locked.
abbrev pub free_rows : (String → Bool) → List OutboxRow → List OutboxRow
free_rows locked [] = []
free_rows locked (row ∷ rows) =
    if locked row.id then free_rows locked rows else row ∷ free_rows locked rows

-- The rows of `SELECT … LIMIT ? FOR UPDATE SKIP LOCKED`.
unfoldable pub due_batch : (String → Bool) → ℕ → ℕ → List OutboxRow → List OutboxRow
unfolding sort_by_time
due_batch locked at size rows = take size (sort_by_time (free_rows locked (due_rows at rows)))
