-- ===== src/Transfer/Check.antt =====
-- internal/modules/transfer/application/handler_check_status.go: looking up what has become of a
-- transfer at the bank.
pub mod Effects
pub mod Outcome
pub mod Handler
use go_sunabar_payments.Base.{ℕ, Bool, Option, none, some, String, str_eq, if◌then◌else◌}
use go_sunabar_payments.Platform.Errors.{
  Error, Result, ok, err, sentinel, still_in_flight, external, wrapped,
}
use go_sunabar_payments.Platform.World.{
  World, Action, pure, raise, lift, ◌>>=◌, ◌>>◌, on_error, now, new_id,
}
use go_sunabar_payments.Platform.Sql.{do_tx}
use go_sunabar_payments.Transfer.Status.{
  Status, requested, awaiting_approval, approved, settled, failed, same_status, is_terminal,
}
use go_sunabar_payments.Transfer.Entity.{Transfer, transition, mark_failed}
use go_sunabar_payments.Transfer.Payload.{marshal_state_changed, unmarshal_status_check}
use go_sunabar_payments.Transfer.Repository.{update, find_by_id}
use go_sunabar_payments.Transfer.Gateway.{
  get_transfer_status, map_state_change_event, transfer_event,
}
use go_sunabar_payments.Transfer.Send.{state_changed}
use go_sunabar_payments.Outbox.Event.{Event}
use go_sunabar_payments.Outbox.Publisher.{publish}

-- `mapSunabarStatus`.
unfoldable pub map_sunabar_status : String → Option Status
map_sunabar_status s =
    if str_eq s "AcceptedToBank"
    then some requested
    else if str_eq s "AwaitingApproval"
    then some awaiting_approval
    else if str_eq s "Approved"
    then some approved
    else if str_eq s "Settled"
    then some settled
    else if str_eq s "Failed"
    then some failed
    else none

abbrev or_unknown : Option Status → Result Status
or_unknown none = err (external "unknown sunabar status")
or_unknown (some s) = ok s

-- `derefString`.
abbrev pub deref_string : Option String → String
deref_string none = ""
deref_string (some s) = s

-- The change of state that `applyStatus` makes.
unfoldable pub advanced : Transfer → Status → String → ℕ → Action Transfer
advanced t to detail at =
    if same_status to failed
    then on_error (wrapped "mark failed") (lift (mark_failed t detail at))
    else on_error (wrapped "transition") (lift (transition t to at))

-- The notification of the new state, if it has one.
unfoldable pub tell : Transfer → Transfer → Status → String → ℕ → Action (Unit {0})
tell t t'' to apply_no at = if str_eq (map_state_change_event to) "" then pure tt else do
  id ← new_id
  publish (
      transfer_event id t''.id (map_state_change_event to)
        (marshal_state_changed
          (state_changed t'' t.status to apply_no (deref_string t''.last_error)))
        at)

-- The transaction of `applyStatus`.
unfoldable pub apply_body : Transfer → Status → String → String → Action (Unit {0})
apply_body t to detail apply_no = do
  at ← now
  t' ← advanced t to detail at
  t'' ← on_error (wrapped "update transfer") (update t')
  tell t t'' to apply_no at

-- `applyStatus`.
unfoldable pub apply_status : Transfer → Status → String → String → Action (Unit {0})
apply_status t to detail apply_no = do_tx (apply_body t to detail apply_no)

-- A state that is not final asks the relay to come back.
abbrev pub in_flight : Status → Action (Unit {0})
in_flight to = if is_terminal to then pure tt else raise (sentinel still_in_flight)

unfoldable pub observe : Transfer → Status → String → String → Action (Unit {0})
observe t to detail apply_no =
    if is_terminal t.status
    then pure tt
    else if same_status t.status to
    then in_flight to
    else (do apply_status t to detail apply_no; in_flight to)

-- `CheckStatusHandler.Handle`.
unfoldable pub handle : Event → Action (Unit {0})
handle evt = do
  p ← on_error (wrapped "unmarshal payload") (lift (unmarshal_status_check evt.payload))
  res ← on_error (wrapped "get transfer status") (get_transfer_status p.apply_no)
  to ← lift (or_unknown (map_sunabar_status res.status))
  t ← on_error (wrapped "find transfer") (find_by_id p.transfer_id)
  observe t to res.status_detail p.apply_no
