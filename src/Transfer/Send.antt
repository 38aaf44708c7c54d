-- ===== src/Transfer/Send.antt =====
-- internal/modules/transfer/application/handler_send_to_sunabar.go: handing a pending transfer to
-- the bank.
pub mod Effects
pub mod Refusal
pub mod Handler
pub mod Conclusion
pub mod Outcome
use go_sunabar_payments.Base.{ℕ, Bool, String, str_eq, if◌then◌else◌, not}
use go_sunabar_payments.Platform.Errors.{
  Error, Result, ok, err, sentinel, skip_attempt, wrapped, joined, error_text,
}
use go_sunabar_payments.Platform.Bank.{TransferRequest, TransferResult}
use go_sunabar_payments.Platform.World.{
  World, Action, pure, raise, lift, ◌>>=◌, ◌>>◌, on_error, now, new_id,
}
use go_sunabar_payments.Platform.Sql.{do_tx}
use go_sunabar_payments.Transfer.Status.{
  Status, pending, requested, failed, same_status, status_text,
}
use go_sunabar_payments.Transfer.Entity.{Transfer, mark_requested, mark_failed}
use go_sunabar_payments.Transfer.Payload.{
  StatusCheckPayload, StateChangedPayload, marshal_status_check, marshal_state_changed,
  unmarshal_requested, event_transfer_status_check,
}
use go_sunabar_payments.Transfer.Repository.{update, find_by_id}
use go_sunabar_payments.Transfer.Gateway.{
  breaker_allow, breaker_success, breaker_failure, request_transfer, format_date, is_retryable,
  map_state_change_event, transfer_event,
}
use go_sunabar_payments.Outbox.Event.{Event}
use go_sunabar_payments.Outbox.Publisher.{publish}

-- The request made of the bank for a transfer.
abbrev pub bank_request : Transfer → String → TransferRequest
bank_request t date = record {
  idempotency_key = t.api_idempotency_key;
  source_account_id = t.source_account_id;
  amount = t.amount;
  dest_bank_code = t.dest_bank_code;
  dest_branch_code = t.dest_branch_code;
  dest_account_type = t.dest_account_type;
  dest_account_num = t.dest_account_num;
  dest_account_name = t.dest_account_name;
  transfer_date = date;
  remarks = "";
}

abbrev pub state_changed : Transfer → Status → Status → String → String → StateChangedPayload
state_changed t from to apply_no message = record {
  transfer_id = t.id;
  from_status = status_text from;
  to_status = status_text to;
  apply_no = apply_no;
  error_message = message;
}

-- `publishStateChanged`.
unfoldable pub publish_state_changed :
    Transfer → Status → Status → String → String → Action (Unit {0})
publish_state_changed t from to apply_no message =
    if str_eq (map_state_change_event to) "" then pure tt else do
      id ← new_id
      at ← now
      publish (
          transfer_event id t.id (map_state_change_event to)
            (marshal_state_changed (state_changed t from to apply_no message)) at)

-- The transaction after a refusal by the bank.
unfoldable pub fail_transfer : Transfer → Error → Action (Unit {0})
fail_transfer t e = do
  at ← now
  t' ← on_error (wrapped "mark failed") (lift (mark_failed t (error_text e) at))
  t'' ← on_error (wrapped "update transfer ( failed ) ") (update t')
  publish_state_changed t'' pending failed "" (error_text e)

-- The events after the bank has accepted the transfer: the notification, and the order to look up
-- the result.
unfoldable pub announce : Transfer → String → ℕ → Action (Unit {0})
announce t apply_no at = do
  publish_state_changed t pending requested apply_no ""
  id ← new_id
  publish (
      transfer_event id t.id event_transfer_status_check
        (marshal_status_check (record { transfer_id = t.id; apply_no = apply_no })) at)

-- The transaction after the bank has accepted the transfer.
unfoldable pub accept_transfer : Transfer → String → Action (Unit {0})
accept_transfer t apply_no = do
  at ← now
  t' ← on_error (wrapped "mark requested") (lift (mark_requested t apply_no at))
  t'' ← on_error (wrapped "update transfer ( requested ) ") (update t')
  announce t'' apply_no at

-- The branches on the answer of the bank.
unfoldable pub answered : Transfer → Result TransferResult → Action (Unit {0})
answered t (ok res) = do at ← now; breaker_success at; do_tx (accept_transfer t res.apply_no)
answered t (err e) =
    if is_retryable e
    then (do at ← now; breaker_failure at; raise e)
    else (do at ← now; breaker_success at; do_tx (fail_transfer t e))

unfoldable pub send : Transfer → Action (Unit {0})
send t = do
  at ← now
  on_error (joined (sentinel skip_attempt)) (breaker_allow at)
  today ← now
  date ← format_date today
  answer ← request_transfer (bank_request t date)
  answered t answer

-- `SendToSunabarHandler.Handle`.
unfoldable pub handle : Event → Action (Unit {0})
handle evt = do
  p ← on_error (wrapped "unmarshal payload") (lift (unmarshal_requested evt.payload))
  t ← on_error (wrapped "find transfer") (find_by_id p.transfer_id)
  if not (same_status t.status pending) then pure tt else send t
