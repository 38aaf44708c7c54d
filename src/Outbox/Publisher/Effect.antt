-- ===== src/Outbox/Publisher/Effect.antt =====
-- What `Publish` (internal/platform/outbox/publisher.go) has done when it returns no error.
use go_sunabar_payments.Base.{◌≡◌, false, [], ◌∷◌, ◌++◌, arith}
use go_sunabar_payments.Platform.Errors.{ok}
use go_sunabar_payments.Platform.World.{World, ◌>>=◌, on_error, now}
use go_sunabar_payments.Platform.Sql.{exec_tx}
use go_sunabar_payments.Platform.Sql.Keeps.{Keeps, keeps_rules, working-statement}
use go_sunabar_payments.Outbox.Event.{Event}
use go_sunabar_payments.Outbox.Publisher.{has_event, new_row, insert_event, publish}

-- The event stands at the end of the outbox of the transaction, PENDING and due at once.
pub publish_ok :
    (e : Event) (w : World)
    → (publish e w).0 ≡ ok tt
    → (has_event e.id w.working.outbox_events ≡ false)
      × ((publish e w).1.working ≡ record w.working {
        outbox_events = w.working.outbox_events ++ new_row e (w.outside.clock w.ticks) ∷ [];
      })
unfolding publish insert_event exec_tx now on_error ◌>>=◌
publish_ok e w h = ground (arith, working-statement (now w).1)

pub Keeps-publish : (e : Event) → Keeps (publish e)
unfolding publish
Keeps-publish e = search keeps_rules
