-- ===== src/Examples/Sending.antt =====
-- Handing a pending transfer to the bank.
use go_sunabar_payments.Base.{◌≡◌, refl, ◌⊎◌, [], ◌∷◌, ◌++◌, some, String}
use go_sunabar_payments.Base.Int.{wrap64}
use go_sunabar_payments.Platform.Errors.{ok, api_error}
use go_sunabar_payments.Platform.World.{pure, raise, ◌>>=◌, on_error, now, new_id}
use go_sunabar_payments.Platform.Sql.{
  statement, on_working, exec_tx, rows_affected, read_committed, query_db, interfere,
  committed_with, finished, begun, do_tx,
}
use go_sunabar_payments.Transfer.Status.{pending, can_transition}
use go_sunabar_payments.Transfer.Entity.{Transfer, transition, mark_requested}
use go_sunabar_payments.Transfer.Payload.{RequestedPayload, marshal_requested, unmarshal_requested}
use go_sunabar_payments.Transfer.Breaker.{allow, record_success, record_failure}
use go_sunabar_payments.Transfer.Repository.{
  find_transfer, update_rows, update_row, update, scan_one, find_by_id,
}
use go_sunabar_payments.Transfer.Gateway.{
  breaker_allow, breaker_success, breaker_failure, request_transfer, format_date, is_retryable,
  map_state_change_event,
}
use go_sunabar_payments.Transfer.Send.{
  bank_request, publish_state_changed, announce, accept_transfer, answered, send, handle,
}
use go_sunabar_payments.Transfer.Send.Handler.{one_request}
use go_sunabar_payments.Transfer.Send.Conclusion.{Concluded}
use go_sunabar_payments.Transfer.Send.Outcome.{failure_changes_nothing, successful_run}
use go_sunabar_payments.Outbox.Publisher.{insert_event, publish}
use go_sunabar_payments.Examples.Data.{request_event, world, world_down, outside}

one_request_example :
    ((handle request_event world).1.requests ≡ [])
    ⊎ ((p : RequestedPayload) × (t : Transfer) × (date : String) × (unmarshal_requested
            request_event.payload
          ≡ ok p)
        × (find_transfer p.transfer_id world.committed.transfers ≡ some t)
        × (t.status ≡ pending)
        × ((handle request_event world).1.requests ≡ [] ++ bank_request t date ∷ []))
one_request_example = one_request request_event world

sends : (handle request_event world).0 ≡ ok tt
unfolding handle send answered accept_transfer announce publish_state_changed publish insert_event
    update update_row update_rows find_by_id scan_one query_db read_committed exec_tx on_working
    rows_affected do_tx begun finished committed_with interfere statement on_error now new_id pure
    breaker_allow breaker_success request_transfer format_date map_state_change_event mark_requested
    transition can_transition allow record_success unmarshal_requested marshal_requested wrap64
    ◌>>=◌
sends = refl

successful_run_example :
    ((handle request_event world).1.committed ≡ world.committed)
    ⊎ ((t : Transfer) × (date : String) × (find_transfer t.id world.committed.transfers ≡ some t)
        × (t.status ≡ pending)
        × Concluded t
            (outside.request_transfer 0 (bank_request t date))
            world.committed
            (handle request_event world).1.committed)
successful_run_example = successful_run request_event world refl sends

failure_changes_nothing_example :
    (handle request_event world_down).1.committed ≡ world_down.committed
unfolding handle send answered find_by_id scan_one query_db read_committed statement on_error now
    pure breaker_allow breaker_failure request_transfer format_date is_retryable allow
    record_failure unmarshal_requested marshal_requested wrap64 raise ◌>>=◌
failure_changes_nothing_example =
    failure_changes_nothing request_event world_down {x = api_error 503 "busy"} refl refl
