-- ===== src/Cmd/Relay.antt =====
-- cmd/relay/main.go: the relay with its handlers, and the event types of
-- internal/modules/notification/port.go.
pub mod Wiring
pub mod Attempts
use go_sunabar_payments.Base.{List, [], ◌∷◌, String, str_eq, if◌then◌else◌}
use go_sunabar_payments.Base.Int.{ℤ, pos}
use go_sunabar_payments.Platform.Errors.{Result, ok, err}
use go_sunabar_payments.Transfer.Payload.{
  event_transfer_requested, event_transfer_accepted_to_bank, event_transfer_status_check,
  event_transfer_awaiting_approval, event_transfer_settled, event_transfer_failed,
}
use go_sunabar_payments.Transfer.Send as Send
use go_sunabar_payments.Transfer.Check as Check
use go_sunabar_payments.Notification.Handler as Notification
use go_sunabar_payments.Outbox.Relay.{Handler, Relay, new_relay, register}
use go_sunabar_payments.Sunabar.Number.{codes, parse_int}

abbrev value_or : ℤ → Result ℤ → ℤ
value_or default (ok n) = n
value_or default (err e) = default

-- `intEnv`, of the value of the variable; `strconv.Atoi` reads an int64.
unfoldable pub int_env : String → ℤ → ℤ
int_env value default =
    if str_eq value "" then default else value_or default (parse_int (codes value))

-- `SubscribedEventTypes`.
abbrev pub subscribed_event_types : List String
subscribed_event_types =
    event_transfer_accepted_to_bank ∷ event_transfer_awaiting_approval ∷ event_transfer_settled
    ∷ event_transfer_failed ∷ []

-- The loop over the event types.
abbrev pub register_all : Relay → List String → Handler → Relay
register_all r [] h = r
register_all r (event_type ∷ rest) h = register_all (register r event_type h) rest h

-- The relay of `run`, of the values of OUTBOX_BATCH_SIZE and OUTBOX_MAX_ATTEMPT.
unfoldable pub main_relay : String → String → Relay
unfolding int_env
main_relay batch_size max_attempt =
    let r = new_relay (int_env batch_size (pos 100)) (int_env max_attempt (pos 50)) in
    let with_send = register r event_transfer_requested Send.handle in
    let with_check = register with_send event_transfer_status_check Check.handle in
    register_all with_check subscribed_event_types Notification.handle
