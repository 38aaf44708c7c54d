-- ===== src/Cmd/Relay/Attempts.antt =====
-- The limit on attempts for the relay of cmd/relay/main.go with the handlers that it registers.
pub mod Writing
pub mod Handling
use go_sunabar_payments.Base.{List, String}
use go_sunabar_payments.Platform.World.{World}
use go_sunabar_payments.Transfer.Send as Send
use go_sunabar_payments.Transfer.Check as Check
use go_sunabar_payments.Notification.Handler as Notification
use go_sunabar_payments.Outbox.Event.{Event}
use go_sunabar_payments.Outbox.Relay.{run, new_relay, register}
use go_sunabar_payments.Outbox.Relay.Limit.{Limited, HandlersKeep, run-Limited}
use go_sunabar_payments.Cmd.Relay.{main_relay}
use go_sunabar_payments.Cmd.Relay.Wiring.{limits_of_main}
use go_sunabar_payments.Cmd.Relay.Attempts.Handling.{
  Preserves-send_handle, Preserves-check_handle, Preserves-notify_handle, keeps_limit,
}

main_keeps :
    (batch_size max_attempt : String)
    → HandlersKeep (main_relay batch_size max_attempt) (main_relay batch_size max_attempt).handlers
unfolding main_relay register new_relay
main_keeps batch_size max_attempt =
    let r = main_relay batch_size max_attempt in
    let positive = (limits_of_main batch_size max_attempt).1 in
    let limited = keeps_limit r positive in
    let told : (e : Event) (w : World) → Limited r w → Limited r (Notification.handle e w).1 =
      λ e. limited (Notification.handle e) (Preserves-notify_handle r positive e) in
    let checked : (e : Event) (w : World) → Limited r w → Limited r (Check.handle e w).1 =
      λ e. limited (Check.handle e) (Preserves-check_handle r positive e) in
    (
      λ e. limited (Send.handle e) (Preserves-send_handle r positive e),
      (checked, (told, (told, (told, (told, tt))))),
    )

-- However many batches the relay of cmd/relay works off, whatever its environment says and whatever the
-- bank and the database answer: from tables in which no PENDING row has as many attempts as the limit
-- it comes to such tables, as long as what others commit makes no such row. The handlers that the
-- program registers make none.
pub main_relay-Limited :
    (batch_size max_attempt : String) (polls : List (Unit {0})) (w : World)
    → Limited (main_relay batch_size max_attempt) w
    → Limited (main_relay batch_size max_attempt) (run polls (main_relay batch_size max_attempt) w)
main_relay-Limited batch_size max_attempt polls w l =
    run-Limited (main_relay batch_size max_attempt) (main_keeps batch_size max_attempt) polls w l
