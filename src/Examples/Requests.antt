-- ===== src/Examples/Requests.antt =====
-- Requests for transfers.
use go_sunabar_payments.Base.{◌≡◌, refl, none}
use go_sunabar_payments.Platform.Errors.{ok}
use go_sunabar_payments.Platform.World.{World, pure, ◌>>=◌, on_error, lift, now, new_id}
use go_sunabar_payments.Platform.Sql.{
  statement, on_working, exec_tx, read_committed, query_db, interfere, committed_with, finished,
  begun, do_tx, interfered,
}
use go_sunabar_payments.Transfer.Entity.{Transfer, new_transfer}
use go_sunabar_payments.Transfer.Repository.{insert_row, insert, scan_one, find_by_app_request_id}
use go_sunabar_payments.Transfer.Request.{
  Command, store, retried, create as create_transfer, after_lookup, execute,
}
use go_sunabar_payments.Transfer.Request.Idempotent.{execute-Ended, execute_idempotent, Ended}
use go_sunabar_payments.Outbox.Publisher.{insert_event, publish}
use go_sunabar_payments.Transfer.Status.{pending}
use go_sunabar_payments.Base.{◌∷◌, ◌≢◌, []}
use go_sunabar_payments.Base.Int.{pos, ◌<ℤ◌, wrap64}
use go_sunabar_payments.Platform.Json.{text, number, Json, object}
use go_sunabar_payments.Transfer.Transport.{
  status_code_of, decode_body, validated, requested, create,
}
use go_sunabar_payments.Transfer.Transport.Accepted.{Promise, accepted_is_stored}
use go_sunabar_payments.Examples.Data.{command, params, no_rows, empty_world}

abbrev created : Transfer
created = record {
  id = "id-0";
  app_request_id = "req-1";
  api_idempotency_key = "id-1";
  status = pending;
  params = params;
  apply_no = none;
  last_error = none;
  version = 1;
  created_at = 0;
  updated_at = 0;
}

creates : (execute command empty_world).0 ≡ ok created
unfolding execute after_lookup create_transfer retried store insert insert_row publish insert_event
    scan_one find_by_app_request_id query_db read_committed exec_tx on_working do_tx begun finished
    committed_with interfere statement on_error lift now new_id pure new_transfer ◌>>=◌
creates = refl

execute-Ended_example : Ended command no_rows (interfered empty_world) (execute command empty_world)
execute-Ended_example = execute-Ended command empty_world

abbrev world_after : World
world_after = record empty_world { committed = (execute command empty_world).1.committed }

execute_idempotent_example : execute command world_after ≡ (ok created, world_after)
execute_idempotent_example =
    execute_idempotent command command empty_world world_after creates refl refl refl

abbrev body : Json
body = object (("appRequestId", text "req-1") ∷ ("amount", number (pos 1000)) ∷ [])

replies : status_code_of (create body empty_world).0 ≡ 202
unfolding create validated requested decode_body execute after_lookup create_transfer retried store
    insert insert_row publish insert_event scan_one find_by_app_request_id query_db read_committed
    exec_tx on_working do_tx begun finished committed_with interfere statement on_error lift now
    new_id pure new_transfer ◌>>=◌ wrap64
replies = refl

accepted_is_stored_example :
    (cmd : Command) × (decode_body body ≡ ok cmd)
    × (cmd.app_request_id ≢ "")
    × (pos 0 <ℤ cmd.params.amount)
    × Promise cmd (create body empty_world)
accepted_is_stored_example = accepted_is_stored body empty_world replies
