-- ===== src/Cmd/Relay/Wiring.antt =====
-- Which events the relay of cmd/relay/main.go works off.
use go_sunabar_payments.Base.{◌<◌, ◌≡◌, refl, ◌⊎◌, inl, inr, none, some, String, arith}
use go_sunabar_payments.Base.Int.{ℤ, pos, ◌<ℤ◌}
use go_sunabar_payments.Transfer.Breaker.{or_default}
use go_sunabar_payments.Outbox.Relay.{new_relay, register, find_handler}
use go_sunabar_payments.Transfer.Payload.{event_transfer_requested, event_transfer_status_check}
use go_sunabar_payments.Transfer.Send as Send
use go_sunabar_payments.Transfer.Check as Check
use go_sunabar_payments.Notification.Handler as Notification
use go_sunabar_payments.Transfer.Status.{
  Status, pending, requested, awaiting_approval, approved, settled, failed,
}
use go_sunabar_payments.Transfer.Gateway.{map_state_change_event}
use go_sunabar_payments.Reconciliation.Invoice.{
  InvoiceStatus, invoice_open, invoice_partial, invoice_cleared, invoice_excess,
}
use go_sunabar_payments.Reconciliation.Reconcile.{map_status_to_event}
use go_sunabar_payments.Cmd.Relay.{int_env, main_relay}

-- The relay hands the requests of transfers to the handler that sends them, the scheduled checks to the
-- one that asks for the state, and each event of a change of state to the notifications; an event of a
-- reconciliation goes to no handler.
pub handlers_of_main :
    (batch_size max_attempt : String) (s : Status) (i : InvoiceStatus)
    → (find_handler event_transfer_requested (main_relay batch_size max_attempt).handlers
        ≡ some Send.handle)
      × (find_handler event_transfer_status_check (main_relay batch_size max_attempt).handlers
          ≡ some Check.handle)
      × ((map_state_change_event s ≡ "")
          ⊎ (find_handler (map_state_change_event s) (main_relay batch_size max_attempt).handlers
              ≡ some Notification.handle))
      × (find_handler (map_status_to_event i) (main_relay batch_size max_attempt).handlers ≡ none)
unfolding main_relay register new_relay map_state_change_event map_status_to_event
handlers_of_main b m s i = (refl, refl, noticed s, ignored i)
  where
    noticed :
        (s : Status)
        → (map_state_change_event s ≡ "")
          ⊎ (find_handler (map_state_change_event s) (main_relay b m).handlers
              ≡ some Notification.handle)
    noticed pending = inl refl
    noticed requested = inr refl
    noticed awaiting_approval = inr refl
    noticed approved = inl refl
    noticed settled = inr refl
    noticed failed = inr refl

    ignored :
        (i : InvoiceStatus) → find_handler (map_status_to_event i) (main_relay b m).handlers ≡ none
    ignored invoice_open = refl
    ignored invoice_partial = refl
    ignored invoice_cleared = refl
    ignored invoice_excess = refl

or_default-pos : (n default : ℤ) → pos 0 <ℤ default → 0 < or_default n default
or_default-pos n default h = ground arith

-- Whatever the environment says, a batch has a place and an event has an attempt.
pub limits_of_main :
    (batch_size max_attempt : String)
    → (0 < (main_relay batch_size max_attempt).batch_size)
      × (0 < (main_relay batch_size max_attempt).max_attempt)
unfolding main_relay register new_relay
limits_of_main b m = (
  or_default-pos (int_env b (pos 100)) (pos 100) (omega arith),
  or_default-pos (int_env m (pos 50)) (pos 10) (omega arith),
)
