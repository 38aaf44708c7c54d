-- ===== src/Examples/Relaying.antt =====
-- The relay on a table of one event.
use go_sunabar_payments.Base.{◌≡◌, List, [], ◌∷◌}
use go_sunabar_payments.Platform.Errors.{ok}
use go_sunabar_payments.Platform.World.{World, pure}
use go_sunabar_payments.Outbox.Relay.{Relay, RowUpdate, dispatch_all, write_all}
use go_sunabar_payments.Outbox.Relay.Recording.{Delivered, dispatch_all-Delivered}
use go_sunabar_payments.Outbox.Relay.Settled.{RowsFollow, batch_settled}
use go_sunabar_payments.Examples.Data.{row, empty_world}

abbrev relay : Relay
relay = record {
  batch_size = 100;
  max_attempt = 10;
  handlers = ("TransferRequested", λ e. pure tt) ∷ [];
}

dispatch_all-Delivered_example :
    (us : List RowUpdate) × (w' : World) × (dispatch_all relay (row ∷ []) empty_world ≡ (ok us, w'))
    × Delivered relay empty_world (row ∷ []) us w'
dispatch_all-Delivered_example = dispatch_all-Delivered relay (row ∷ []) empty_world

batch_settled_example :
    (us : List RowUpdate) × ((dispatch_all relay (row ∷ []) empty_world).0 ≡ ok us)
    × RowsFollow (row ∷ []) (row ∷ []) (write_all us (row ∷ []))
batch_settled_example = batch_settled relay (row ∷ []) empty_world (row ∷ [])
