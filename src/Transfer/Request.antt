-- ===== src/Transfer/Request.antt =====
-- internal/modules/transfer/application/usecase_request.go: accepting a request for a transfer once
-- for each request identifier.
pub mod Effects
pub mod Idempotent
use go_sunabar_payments.Base.{Bool, String, if◌then◌else◌}
use go_sunabar_payments.Platform.Errors.{
  Error, Result, ok, err, sentinel, already_exists, already_exists_retry, not_found, wrapped,
  errors_is,
}
use go_sunabar_payments.Platform.World.{
  World, Action, pure, raise, ◌>>=◌, ◌>>◌, on_error, now, new_id,
}
use go_sunabar_payments.Platform.Sql.{do_tx}
use go_sunabar_payments.Transfer.Entity.{Transfer, Params, new_transfer}
use go_sunabar_payments.Transfer.Payload.{
  RequestedPayload, marshal_requested, event_transfer_requested,
}
use go_sunabar_payments.Transfer.Repository.{insert, find_by_app_request_id}
use go_sunabar_payments.Transfer.Gateway.{transfer_event}
use go_sunabar_payments.Outbox.Publisher.{publish}

-- `RequestTransferCommand`.
pub record Command : Type 0 where
  pub app_request_id : String
  pub params : Params

-- The payload of `TransferRequested`.
abbrev pub requested_payload : Transfer → RequestedPayload
requested_payload t = record {
  transfer_id = t.id;
  api_idempotency_key = t.api_idempotency_key;
  amount = t.amount;
  source_account_id = t.source_account_id;
  dest_bank_code = t.dest_bank_code;
  dest_branch_code = t.dest_branch_code;
  dest_account_type = t.dest_account_type;
  dest_account_num = t.dest_account_num;
  dest_account_name = t.dest_account_name;
}

abbrev pub insert_retry : Error → Error
insert_retry e =
    if errors_is e already_exists
    then sentinel already_exists_retry
    else wrapped "insert transfer" e

-- The body of the transaction: the transfer and its event.
unfoldable pub store : Transfer → Action (Unit {0})
store t = do
  on_error insert_retry (insert t)
  id ← new_id
  at ← now
  publish
      (transfer_event id t.id event_transfer_requested (marshal_requested (requested_payload t)) at)

-- Another process may have stored the request first: then its transfer is read.
unfoldable pub retried : Command → Transfer → Result (Unit {0}) × World → Result Transfer × World
retried cmd t (ok _, w) = (ok t, w)
retried cmd t (err e, w) =
    if errors_is e already_exists_retry
    then find_by_app_request_id cmd.app_request_id w
    else (err e, w)

unfoldable pub create : Command → Action Transfer
unfolding retried
create cmd = do
  id ← new_id
  key ← new_id
  at ← now
  let t = new_transfer id cmd.app_request_id key cmd.params at
  (λ w. retried cmd t (do_tx (store t) w))

unfoldable pub after_lookup : Command → Result Transfer × World → Result Transfer × World
after_lookup cmd (ok t, w) = (ok t, w)
after_lookup cmd (err e, w) =
    if errors_is e not_found then create cmd w else (err (wrapped "find by app request id" e), w)

-- `RequestTransferUseCase.Execute`.
unfoldable pub execute : Command → Action Transfer
unfolding after_lookup
execute cmd w = after_lookup cmd (find_by_app_request_id cmd.app_request_id w)
