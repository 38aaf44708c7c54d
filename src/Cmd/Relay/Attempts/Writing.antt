-- ===== src/Cmd/Relay/Attempts/Writing.antt =====
-- What the transactions of internal/modules/transfer/application write, as the limit on attempts of the
-- relay sees it.
use go_sunabar_payments.Base.{ℕ, ◌<◌, ◌≡◌, refl, Bool, true, false, [], ◌∷◌, String, All-append}
use go_sunabar_payments.Platform.Errors.{Error}
use go_sunabar_payments.Platform.Sql.{exec_tx}
use go_sunabar_payments.Platform.World.{Db}
use go_sunabar_payments.Platform.Sql.Preserves.{Writes, Gives, Writes-exec_tx, writes_rules}
use go_sunabar_payments.Transfer.Status.{Status}
use go_sunabar_payments.Transfer.Entity.{Transfer}
use go_sunabar_payments.Transfer.Repository.{update, update_row}
use go_sunabar_payments.Transfer.Send.{
  publish_state_changed, fail_transfer, announce, accept_transfer,
}
use go_sunabar_payments.Transfer.Check.{advanced, tell, apply_body}
use go_sunabar_payments.Outbox.Event.{Event, OutboxRow}
use go_sunabar_payments.Outbox.Publisher.{has_event, new_row, insert_event, publish}
use go_sunabar_payments.Outbox.Relay.{Relay}
use go_sunabar_payments.Outbox.Relay.Attempts.{HasAttempts, Bounded}

module _ (r : Relay) (positive : 0 < r.max_attempt) where
  inserted-Gives :
      (row : OutboxRow) (db : Db) (b : Bool)
      → has_event row.id db.outbox_events ≡ b
      → HasAttempts r row
      → Bounded r db
      → Gives (Bounded r) (insert_event row db)
  unfolding insert_event
  inserted-Gives row db true e h i = rw e tt
  inserted-Gives row db false e h i =
      rw e (All-append (HasAttempts r) db.outbox_events (row ∷ []) i (h, tt))

  Writes-insert : (e : Event) (at : ℕ) → Writes (Bounded r) (exec_tx (insert_event (new_row e at)))
  Writes-insert e at =
      Writes-exec_tx (insert_event (new_row e at))
        (λ db i. inserted-Gives (new_row e at) db _ refl (λ _. positive) i)

  Writes-publish : (e : Event) → Writes (Bounded r) (publish e)
  unfolding publish
  Writes-publish e = search (writes_rules, Writes-insert)

  Writes-update_row : (t : Transfer) → Writes (Bounded r) (exec_tx (update_row t))
  unfolding update_row
  Writes-update_row t = Writes-exec_tx (update_row t) (λ db i. i)

  Writes-update : (t : Transfer) → Writes (Bounded r) (update t)
  unfolding update
  Writes-update t = search (writes_rules, Writes-update_row) depth 8

  Writes-publish_state_changed :
      (t : Transfer) (from to : Status) (apply_no message : String)
      → Writes (Bounded r) (publish_state_changed t from to apply_no message)
  unfolding publish_state_changed
  Writes-publish_state_changed t from to apply_no message = search (writes_rules, Writes-publish)

  Writes-announce :
      (t : Transfer) (apply_no : String) (at : ℕ) → Writes (Bounded r) (announce t apply_no at)
  unfolding announce
  Writes-announce t apply_no at =
      search (writes_rules, Writes-publish, Writes-publish_state_changed) depth 8

  pub Writes-accept_transfer :
      (t : Transfer) (apply_no : String) → Writes (Bounded r) (accept_transfer t apply_no)
  unfolding accept_transfer
  Writes-accept_transfer t apply_no = search (writes_rules, Writes-update, Writes-announce) depth 8

  pub Writes-fail_transfer : (t : Transfer) (e : Error) → Writes (Bounded r) (fail_transfer t e)
  unfolding fail_transfer
  Writes-fail_transfer t e =
      search (writes_rules, Writes-update, Writes-publish_state_changed) depth 8

  Writes-advanced :
      (t : Transfer) (to : Status) (detail : String) (at : ℕ)
      → Writes (Bounded r) (advanced t to detail at)
  unfolding advanced
  Writes-advanced t to detail at = search writes_rules

  Writes-tell :
      (t t' : Transfer) (to : Status) (apply_no : String) (at : ℕ)
      → Writes (Bounded r) (tell t t' to apply_no at)
  unfolding tell
  Writes-tell t t' to apply_no at = search (writes_rules, Writes-publish)

  pub Writes-apply_body :
      (t : Transfer) (to : Status) (detail apply_no : String)
      → Writes (Bounded r) (apply_body t to detail apply_no)
  unfolding apply_body
  Writes-apply_body t to detail apply_no =
      search (writes_rules, Writes-advanced, Writes-update, Writes-tell) depth 8
