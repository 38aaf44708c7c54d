-- ===== src/Examples/Transactions.antt =====
-- Transactions, optimistic locking, and the delivery of notices.
use go_sunabar_payments.Base.{◌≡◌, refl, ◌≢◌, List, [], ◌∷◌, ◌++◌}
use go_sunabar_payments.Platform.Errors.{ok, err, api_error}
use go_sunabar_payments.Platform.World.{World, pure, ◌>>=◌, on_error}
use go_sunabar_payments.Platform.Sql.{
  statement, on_working, exec_tx, exec_db, rows_affected, interfered, do_tx,
}
use go_sunabar_payments.Platform.Sql.Atomicity.{AllOrNothing, entered, do_tx_atomic}
use go_sunabar_payments.Transfer.Entity.{Transfer}
use go_sunabar_payments.Transfer.Payload.{
  StateChangedPayload, marshal_state_changed, unmarshal_state_changed,
  event_transfer_accepted_to_bank,
}
use go_sunabar_payments.Transfer.Repository.{update_rows, update_row, update}
use go_sunabar_payments.Transfer.Repository.Locking.{one_writer, Keeps-update}
use go_sunabar_payments.Outbox.Event.{Event}
use go_sunabar_payments.Outbox.Processed.{insert_processed, mark_processed}
use go_sunabar_payments.Notification.Handler.{build_notice, send, notify, after_mark, handle}
use go_sunabar_payments.Notification.Notice.{Notice, transfer_accepted}
use go_sunabar_payments.Notification.Handler.Delivery.{told_once, refused_notice_is_lost}
use go_sunabar_payments.Examples.Data.{
  transfer, transfer_asked, world, world_down, empty_world, check_event,
}

do_tx_atomic_example :
    AllOrNothing
      (interfered world)
      (update transfer_asked (entered world))
      (do_tx (update transfer_asked) world)
do_tx_atomic_example = do_tx_atomic (update transfer_asked) world (Keeps-update transfer_asked)

abbrev world_in_tx : World
world_in_tx = record world { working = world.committed }

abbrev changed : Transfer
changed = record transfer_asked { version = 1 }

updates : (update changed world_in_tx).0 ≡ ok transfer_asked
unfolding update update_row update_rows exec_tx on_working rows_affected statement on_error pure
    ◌>>=◌
updates = refl

one_writer_example :
    (update transfer (record world_in_tx { working = (update changed world_in_tx).1.working })).0
    ≢ ok transfer
one_writer_example =
    one_writer changed transfer world_in_tx
      (record world_in_tx { working = (update changed world_in_tx).1.working }) {a = transfer_asked}
      {b = transfer} (refl, tt) refl refl updates refl

abbrev world_marked : World
world_marked = (mark_processed "e-1" "notification" empty_world).1

abbrev accepted_payload : StateChangedPayload
accepted_payload = record {
  transfer_id = "t-1";
  from_status = "PENDING";
  to_status = "REQUESTED";
  apply_no = "apply-1";
  error_message = "";
}

abbrev accepted_event : Event
accepted_event = record check_event {
  event_type = event_transfer_accepted_to_bank;
  payload = marshal_state_changed accepted_payload;
}

abbrev accepted_notice : Notice
accepted_notice = record {
  kind = transfer_accepted;
  transfer_id = "t-1";
  subject = "[ 振込受付 ] t-1";
  body = "振込依頼を銀行に受付けました。 applyNo=apply-1";
  approval_url = "";
}

told : (handle accepted_event empty_world).1.notices ≡ accepted_notice ∷ []
unfolding handle after_mark notify send build_notice mark_processed insert_processed exec_db
    rows_affected statement on_error pure unmarshal_state_changed marshal_state_changed ◌>>=◌
told = refl

not_empty : (l : List Notice) → l ≡ accepted_notice ∷ [] → l ≢ []
not_empty l e h = cc

rows_kept :
    (handle accepted_event empty_world).1.committed.event_processed
    ≡ (handle accepted_event empty_world).1.committed.event_processed ++ []
unfolding handle after_mark notify send build_notice mark_processed insert_processed exec_db
    rows_affected statement on_error pure unmarshal_state_changed marshal_state_changed ◌>>=◌
rows_kept = refl

abbrev world_told : World
world_told = (handle accepted_event empty_world).1

told_once_example : (handle accepted_event world_told).1.notices ≡ world_told.notices
told_once_example =
    told_once accepted_event empty_world world_told [] (not_empty world_told.notices told) rows_kept

abbrev world_refused : World
world_refused = record empty_world { outside = world_down.outside }

refused_notice_is_lost_example :
    ((handle accepted_event world_refused).0 ≡ err (api_error 500 "no mail"))
    × (handle accepted_event
          (record world_refused { committed = (handle accepted_event world_refused).1.committed })
        ≡ (
          ok tt,
          record world_refused { committed = (handle accepted_event world_refused).1.committed },
        ))
unfolding build_notice mark_processed insert_processed exec_db rows_affected statement on_error pure
    unmarshal_state_changed marshal_state_changed ◌>>=◌
refused_notice_is_lost_example =
    refused_notice_is_lost accepted_event accepted_notice world_refused
      (record world_refused { committed = (handle accepted_event world_refused).1.committed })
      {e = api_error 500 "no mail"} refl refl refl refl refl
