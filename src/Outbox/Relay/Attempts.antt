-- ===== src/Outbox/Relay/Attempts.antt =====
-- The invariants of the outbox that the relay (internal/platform/outbox/relay.go) keeps.
use go_sunabar_payments.Base.{◌<◌, ◌≡◌, true, List, [], ◌∷◌, All, arith}
use go_sunabar_payments.Platform.Errors.{Result, ok, err}
use go_sunabar_payments.Platform.World.{Db}
use go_sunabar_payments.Outbox.Event.{OutboxRow}
use go_sunabar_payments.Outbox.Due.{is_pending}
use go_sunabar_payments.Outbox.Relay.{
  Relay, RowUpdate, mark_sent, put_off, mark_failed, retry_later, update_outbox_row, update_all,
  write_all,
}
use go_sunabar_payments.Outbox.Relay.Backed.{Backing, Backed}

-- A PENDING row has been tried fewer times than the limit.
abbrev pub HasAttempts : Relay → OutboxRow → Type 0
HasAttempts r row = is_pending row.status ≡ true → row.attempt_count < r.max_attempt

abbrev pub Bounded : Relay → Db → Type 0
Bounded r db = All (HasAttempts r) db.outbox_events

update-HasAttempts :
    (r : Relay) (row : OutboxRow) (res : Result (Unit {0})) (u : RowUpdate)
    → Backing r row res u
    → (x : OutboxRow) → HasAttempts r x
    → HasAttempts r (update_outbox_row u x)
unfolding update_outbox_row
update-HasAttempts r row (ok _) (mark_sent id at) b x h = ground arith
update-HasAttempts r row (ok _) (put_off id message at) b x h = absurd b
update-HasAttempts r row (ok _) (mark_failed id attempts message) b x h = absurd b
update-HasAttempts r row (ok _) (retry_later id attempts message at) b x h = absurd b
update-HasAttempts r row (err e) (mark_sent id at) b x h = absurd b
update-HasAttempts r row (err e) (put_off id message at) b x h = ground arith
update-HasAttempts r row (err e) (mark_failed id attempts message) b x h = ground arith
update-HasAttempts r row (err e) (retry_later id attempts message at) b x h = ground arith

update_all-HasAttempts :
    (r : Relay) (batch : List OutboxRow) (u : RowUpdate)
    → Backed r batch u
    → (rows : List OutboxRow) → All (HasAttempts r) rows
    → All (HasAttempts r) (update_all u rows)
unfolding update_all
update_all-HasAttempts r batch u b [] h = tt
update_all-HasAttempts r batch u b (row ∷ rows) (h, hs) =
    (update-HasAttempts r b.row b.res u b.backing row h, update_all-HasAttempts r batch u b rows hs)

pub write_all-HasAttempts :
    (r : Relay) (batch : List OutboxRow) (us : List RowUpdate)
    → All (Backed r batch) us
    → (rows : List OutboxRow) → All (HasAttempts r) rows
    → All (HasAttempts r) (write_all us rows)
unfolding write_all
write_all-HasAttempts r batch [] bs rows h = h
write_all-HasAttempts r batch (u ∷ us) (b, bs) rows h =
    write_all-HasAttempts r batch us bs (update_all u rows)
      (update_all-HasAttempts r batch u b rows h)
