-- ===== src/Cmd/Relay/Attempts/Handling.antt =====
-- The handlers of internal/modules/transfer/application and internal/modules/notification/application
-- keep the limit on attempts of the relay.
use go_sunabar_payments.Base.{
  ℕ, ◌<◌, ◌≡◌, refl, Bool, true, false, Option, none, some, String, Bool-cases, inl, inr,
}
use go_sunabar_payments.Platform.Errors.{Error, Result, ok, err, already_processed, errors_is}
use go_sunabar_payments.Platform.Sql.{exec_db, rows_affected, do_tx}
use go_sunabar_payments.Platform.World.{Db, World, Action}
use go_sunabar_payments.Platform.Sql.Preserves.{
  Sound, Preserves, Gives, Preserves-Keeps, Preserves-exec_db, Preserves-do_tx, preserves_rules,
}
use go_sunabar_payments.Platform.Sql.Keeps.{Keeps-rows_affected}
use go_sunabar_payments.Platform.Bank.{TransferRequest, TransferResult}
use go_sunabar_payments.Transfer.Status.{Status}
use go_sunabar_payments.Transfer.Entity.{Transfer}
use go_sunabar_payments.Transfer.Repository.{find_by_id}
use go_sunabar_payments.Transfer.Repository.Finding.{Keeps-find_by_id}
use go_sunabar_payments.Transfer.Gateway.{
  breaker_allow, breaker_success, breaker_failure, request_transfer, get_transfer_status,
  format_date,
}
use go_sunabar_payments.Transfer.Send.{
  publish_state_changed, fail_transfer, announce, accept_transfer, answered, send,
}
use go_sunabar_payments.Transfer.Send as Send
use go_sunabar_payments.Transfer.Send.Effects.{Keeps-accept_transfer, Keeps-fail_transfer}
use go_sunabar_payments.Transfer.Check.{advanced, tell, apply_body, apply_status, observe}
use go_sunabar_payments.Transfer.Check as Check
use go_sunabar_payments.Transfer.Check.Effects.{Keeps-apply_body}
use go_sunabar_payments.Notification.Handler as Notification
use go_sunabar_payments.Notification.Handler.{consumer_name, build_notice, notify, after_mark}
use go_sunabar_payments.Notification.Notice.{Notice}
use go_sunabar_payments.Outbox.Event.{Event}
use go_sunabar_payments.Outbox.Processed.{is_processed, insert_processed, mark_processed}
use go_sunabar_payments.Outbox.Relay.{Relay}
use go_sunabar_payments.Outbox.Relay.Attempts.{Bounded}
use go_sunabar_payments.Outbox.Relay.Limit.{Limited}
use go_sunabar_payments.Cmd.Relay.Attempts.Writing.{
  Writes-accept_transfer, Writes-fail_transfer, Writes-apply_body,
}

module _ (r : Relay) (positive : 0 < r.max_attempt) where
  Preserves-breaker_allow : (at : ℕ) → Preserves (Bounded r) (breaker_allow at)
  unfolding breaker_allow
  Preserves-breaker_allow at = record {
    at = λ w s. record { committed = s.committed; others = s.others };
  }

  Preserves-breaker_success : (at : ℕ) → Preserves (Bounded r) (breaker_success at)
  unfolding breaker_success
  Preserves-breaker_success at = record {
    at = λ w s. record { committed = s.committed; others = s.others };
  }

  Preserves-breaker_failure : (at : ℕ) → Preserves (Bounded r) (breaker_failure at)
  unfolding breaker_failure
  Preserves-breaker_failure at = record {
    at = λ w s. record { committed = s.committed; others = s.others };
  }

  Preserves-request_transfer :
      (req : TransferRequest) → Preserves (Bounded r) (request_transfer req)
  unfolding request_transfer
  Preserves-request_transfer req = record {
    at = λ w s. record { committed = s.committed; others = s.others };
  }

  Preserves-get_transfer_status :
      (apply_no : String) → Preserves (Bounded r) (get_transfer_status apply_no)
  unfolding get_transfer_status
  Preserves-get_transfer_status apply_no = record {
    at = λ w s. record { committed = s.committed; others = s.others };
  }

  Preserves-format_date : (at : ℕ) → Preserves (Bounded r) (format_date at)
  unfolding format_date
  Preserves-format_date at = record { at = λ w s. s }

  Preserves-find_by_id : (id : String) → Preserves (Bounded r) (find_by_id id)
  Preserves-find_by_id id = Preserves-Keeps (find_by_id id) (Keeps-find_by_id id)

  ruleset bank_rules = (
    preserves_rules, Preserves-breaker_allow, Preserves-breaker_success, Preserves-breaker_failure,
    Preserves-request_transfer, Preserves-get_transfer_status, Preserves-format_date,
    Preserves-find_by_id,
  )

  Preserves-accept :
      (t : Transfer) (apply_no : String)
      → Preserves (Bounded r) (do_tx (accept_transfer t apply_no))
  Preserves-accept t apply_no =
      Preserves-do_tx _ (Keeps-accept_transfer t apply_no)
        (Writes-accept_transfer r positive t apply_no)

  Preserves-fail : (t : Transfer) (e : Error) → Preserves (Bounded r) (do_tx (fail_transfer t e))
  Preserves-fail t e =
      Preserves-do_tx _ (Keeps-fail_transfer t e) (Writes-fail_transfer r positive t e)

  Preserves-answered :
      (t : Transfer) (o : Result TransferResult) → Preserves (Bounded r) (answered t o)
  unfolding answered
  Preserves-answered t (ok res) = search (bank_rules, Preserves-accept) depth 8
  Preserves-answered t (err e) = search (bank_rules, Preserves-fail) depth 8

  Preserves-send : (t : Transfer) → Preserves (Bounded r) (send t)
  unfolding send
  Preserves-send t = search (bank_rules, Preserves-answered) depth 12

  pub Preserves-send_handle : (e : Event) → Preserves (Bounded r) (Send.handle e)
  unfolding Send.handle
  Preserves-send_handle e = search (bank_rules, Preserves-send) depth 8

  Preserves-apply_status :
      (t : Transfer) (to : Status) (detail apply_no : String)
      → Preserves (Bounded r) (apply_status t to detail apply_no)
  unfolding apply_status
  Preserves-apply_status t to detail apply_no =
      Preserves-do_tx _ (Keeps-apply_body t to detail apply_no)
        (Writes-apply_body r positive t to detail apply_no)

  Preserves-observe :
      (t : Transfer) (to : Status) (detail apply_no : String)
      → Preserves (Bounded r) (observe t to detail apply_no)
  unfolding observe
  Preserves-observe t to detail apply_no = search (bank_rules, Preserves-apply_status) depth 8

  pub Preserves-check_handle : (e : Event) → Preserves (Bounded r) (Check.handle e)
  unfolding Check.handle
  Preserves-check_handle e = search (bank_rules, Preserves-observe) depth 12

  processed-Gives :
      (id consumer : String) (db : Db) (b : Bool)
      → is_processed id consumer db.event_processed ≡ b
      → Bounded r db
      → Gives (Bounded r) (insert_processed id consumer db)
  unfolding insert_processed
  processed-Gives id consumer db true e i = rw e i
  processed-Gives id consumer db false e i = rw e i

  Preserves-insert_processed :
      (id consumer : String) → Preserves (Bounded r) (exec_db (insert_processed id consumer))
  Preserves-insert_processed id consumer =
      Preserves-exec_db (insert_processed id consumer)
        (λ db i. processed-Gives id consumer db _ refl i)

  Preserves-affected : (n : ℕ) → Preserves (Bounded r) (rows_affected n)
  Preserves-affected n = Preserves-Keeps (rows_affected n) (Keeps-rows_affected n)

  Preserves-mark_processed :
      (id consumer : String) → Preserves (Bounded r) (mark_processed id consumer)
  unfolding mark_processed
  Preserves-mark_processed id consumer =
      search (preserves_rules, Preserves-insert_processed, Preserves-affected) depth 8

  notify-Sound :
      (n : Option Notice) (w : World) → Sound (Bounded r) w → Sound (Bounded r) (notify n w).1
  unfolding notify
  notify-Sound none w s = s
  notify-Sound (some n) w s = record { committed = s.committed; others = s.others }

  after_mark-Sound :
      (e : Event) (o : Result (Unit {0}) × World)
      → Sound (Bounded r) o.1
      → Sound (Bounded r) (after_mark e o).1
  unfolding after_mark
  after_mark-Sound e (ok _, w) s = notify-Sound (build_notice e) w s
  after_mark-Sound e (err x, w) s = elim (Bool-cases (errors_is x already_processed)) [
    | inl y ↦ rw y s
    | inr n ↦ rw n s
  ]

  pub Preserves-notify_handle : (e : Event) → Preserves (Bounded r) (Notification.handle e)
  unfolding Notification.handle
  Preserves-notify_handle e = record {
    at = λ w s.
        after_mark-Sound e (mark_processed e.id consumer_name w)
          ((Preserves-mark_processed e.id consumer_name).at w s);
  }

  -- An action that preserves the limit takes a limited state to a limited one.
  pub keeps_limit :
      (m : Action (Unit {0}))
      → Preserves (Bounded r) m
      → (w : World) → Limited r w
      → Limited r (m w).1
  keeps_limit m p w l =
      let s = p.at w (record { committed = l.bounded; others = l.others }) in
      record { bounded = s.committed; others = s.others }
