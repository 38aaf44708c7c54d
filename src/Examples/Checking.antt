-- ===== src/Examples/Checking.antt =====
-- Looking up what has become of a transfer.
use go_sunabar_payments.Base.{◌≡◌, refl, true, some}
use go_sunabar_payments.Platform.Errors.{ok}
use go_sunabar_payments.Platform.World.{pure, ◌>>=◌, on_error, lift, now, new_id}
use go_sunabar_payments.Platform.Sql.{
  statement, on_working, exec_tx, rows_affected, read_committed, query_db, interfere,
  committed_with, finished, begun, do_tx,
}
use go_sunabar_payments.Transfer.Status.{Status, is_terminal, can_transition}
use go_sunabar_payments.Transfer.Entity.{Transfer, transition}
use go_sunabar_payments.Transfer.Payload.{
  StatusCheckPayload, marshal_status_check, unmarshal_status_check,
}
use go_sunabar_payments.Transfer.Repository.{
  find_transfer, update_rows, update_row, update, scan_one, find_by_id,
}
use go_sunabar_payments.Transfer.Gateway.{get_transfer_status, map_state_change_event}
use go_sunabar_payments.Transfer.Check.{
  map_sunabar_status, advanced, tell, apply_body, apply_status, observe, handle,
}
use go_sunabar_payments.Transfer.Check.Handler.{success_is_final}
use go_sunabar_payments.Outbox.Publisher.{insert_event, publish}
use go_sunabar_payments.Examples.Data.{check_event, world_asked}

checks : (handle check_event world_asked).0 ≡ ok tt
unfolding handle observe apply_status apply_body tell advanced map_sunabar_status
    get_transfer_status map_state_change_event publish insert_event update update_row update_rows
    find_by_id scan_one query_db read_committed exec_tx on_working rows_affected do_tx begun
    finished committed_with interfere statement on_error lift now new_id pure transition
    can_transition is_terminal unmarshal_status_check marshal_status_check ◌>>=◌
checks = refl

success_is_final_example :
    (p : StatusCheckPayload) × (t : Transfer) × (unmarshal_status_check check_event.payload ≡ ok p)
    × (find_transfer p.transfer_id (handle check_event world_asked).1.committed.transfers ≡ some t)
    × (is_terminal t.status ≡ true)
success_is_final_example = success_is_final check_event world_asked refl checks
