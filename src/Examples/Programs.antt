-- ===== src/Examples/Programs.antt =====
-- The relay of the program, with an event of a reconciliation before one of a transfer, and what the
-- service tells of itself.
use go_sunabar_payments.Base.{ℕ, List, ◌≡◌, ◌⊎◌, refl, [], ◌∷◌, none, some, arith}
use go_sunabar_payments.Base.Int.{pos}
use go_sunabar_payments.Platform.World.{World, ◌>>=◌}
use go_sunabar_payments.Platform.Sql.{statement, read_committed, query_db}
use go_sunabar_payments.Transfer.Status.{settled}
use go_sunabar_payments.Transfer.Gateway.{map_state_change_event}
use go_sunabar_payments.Transfer.Payload.{event_transfer_requested, event_transfer_status_check}
use go_sunabar_payments.Transfer.Send as Send
use go_sunabar_payments.Transfer.Check as Check
use go_sunabar_payments.Notification.Handler as Notification
use go_sunabar_payments.Outbox.Event.{OutboxRow}
use go_sunabar_payments.Outbox.Relay.{new_relay, register, find_handler, run}
use go_sunabar_payments.Outbox.Relay.Starvation.{Idle, run_starves}
use go_sunabar_payments.Reconciliation.Invoice.{invoice_cleared}
use go_sunabar_payments.Reconciliation.Payload.{event_reconciliation_completed}
use go_sunabar_payments.Reconciliation.Reconcile.{map_status_to_event}
use go_sunabar_payments.Outbox.Relay.Limit.{Limited}
use go_sunabar_payments.Cmd.Relay.Attempts.{main_relay-Limited}
use go_sunabar_payments.Cmd.Relay.{int_env, main_relay}
use go_sunabar_payments.Cmd.Relay.Wiring.{handlers_of_main}
use go_sunabar_payments.Sunabar.Number.{codes, format_int, digits_from, parse_int, magnitude}
use go_sunabar_payments.Observability.Mask.{len_str}
use go_sunabar_payments.Observability.Mask.Hiding.{len_str-format_int}
use go_sunabar_payments.Observability.Metrics.{
  Metrics, new_metrics, group_by_status, collect_groups, collect_from_db,
}
use go_sunabar_payments.Observability.Metrics.Counts.{Collected, collect_ok}
use go_sunabar_payments.Examples.Data.{row, no_rows, empty_world, world}

abbrev matched_row : OutboxRow
matched_row = record row { id = "e-0"; event_type = event_reconciliation_completed }

abbrev later_row : OutboxRow
later_row = record row { next_attempt_at = 1 }

abbrev world_blocked : World
world_blocked = record empty_world {
  committed = record no_rows { outbox_events = later_row ∷ matched_row ∷ [] };
}

-- A relay of the program that takes one event at a time.
run_starves_example :
    Idle
      (main_relay "1" "")
      0
      world_blocked
      (run (tt ∷ tt ∷ tt ∷ []) (main_relay "1" "") world_blocked)
unfolding main_relay int_env parse_int magnitude digits_from new_relay register
run_starves_example =
    run_starves (main_relay "1" "") 0 (tt ∷ tt ∷ tt ∷ []) world_blocked (λ n id. refl)
      ((refl, tt), omega arith) tt

abbrev world_due : World
world_due = record empty_world { committed = record no_rows { outbox_events = row ∷ [] } }

main_relay-Limited_example :
    Limited (main_relay "100" "3") (run (tt ∷ tt ∷ []) (main_relay "100" "3") world_due)
unfolding main_relay int_env parse_int magnitude digits_from new_relay register
main_relay-Limited_example =
    main_relay-Limited "100" "3" (tt ∷ tt ∷ []) world_due
      (record { bounded = ((λ p. omega arith), tt); others = tt })

handlers_of_main_example :
    (find_handler event_transfer_requested (main_relay "100" "50").handlers ≡ some Send.handle)
    × (find_handler event_transfer_status_check (main_relay "100" "50").handlers
        ≡ some Check.handle)
    × ((map_state_change_event settled ≡ "")
        ⊎ (find_handler (map_state_change_event settled) (main_relay "100" "50").handlers
            ≡ some Notification.handle))
    × (find_handler (map_status_to_event invoice_cleared) (main_relay "100" "50").handlers ≡ none)
handlers_of_main_example = handlers_of_main "100" "50" settled invoice_cleared

abbrev metrics : Metrics
metrics = record new_metrics { transfer_status = ("SETTLED", pos 4) ∷ [] }

collect_ok_example : Collected world.committed metrics (collect_from_db metrics world).0.1
unfolding collect_from_db collect_groups query_db read_committed statement group_by_status ◌>>=◌
collect_ok_example = collect_ok metrics world (omega arith) (omega arith) refl

len_str-format_int_example : len_str 120 ≡ codes (format_int (pos 120))
len_str-format_int_example = len_str-format_int 120 (omega arith)

abbrev request_id : List ℕ
request_id = codes "r-1"
