-- ===== src/Transfer/Request/Effects.antt =====
-- What the transaction of `Execute`
-- (internal/modules/transfer/application/usecase_request.go) writes.
use go_sunabar_payments.Base.{
  ◌≡◌, refl, ap, ◌∙◌, false, List, [], ◌∷◌, ◌++◌, some, eq_iff, eq_refl, arith,
}
use go_sunabar_payments.Platform.Errors.{Result, ok}
use go_sunabar_payments.Platform.World.{Db, World, ◌>>=◌, on_error, now, new_id}
use go_sunabar_payments.Platform.World.Inversion.{bind_ok, on_error_ok}
use go_sunabar_payments.Platform.Sql.{exec_tx}
use go_sunabar_payments.Platform.Sql.Keeps.{Keeps, keeps_rules, working-statement}
use go_sunabar_payments.Transfer.Entity.{Transfer}
use go_sunabar_payments.Transfer.Payload.{marshal_requested, event_transfer_requested}
use go_sunabar_payments.Transfer.Repository.{clashes, insert_row, find_request, insert}
use go_sunabar_payments.Transfer.Gateway.{transfer_event}
use go_sunabar_payments.Transfer.Send.Effects.{IsNews}
use go_sunabar_payments.Transfer.Request.{requested_payload, insert_retry, store}
use go_sunabar_payments.Outbox.Event.{OutboxRow}
use go_sunabar_payments.Outbox.Publisher.{new_row}
use go_sunabar_payments.Outbox.Publisher.Effect.{publish_ok, Keeps-publish}

pub insert_ok :
    (t : Transfer) (w : World)
    → (insert t w).0 ≡ ok tt
    → (clashes t w.working.transfers ≡ false)
      × ((insert t w).1.working ≡ record w.working { transfers = w.working.transfers ++ t ∷ [] })
unfolding insert insert_row exec_tx on_error ◌>>=◌
insert_ok t w h = ground (arith, working-statement w)

Keeps-insert : (t : Transfer) → Keeps (insert t)
unfolding insert
Keeps-insert t = search keeps_rules

pub Keeps-store : (t : Transfer) → Keeps (store t)
unfolding store
Keeps-store t = search (keeps_rules, Keeps-insert, Keeps-publish) depth 8

-- The tables with a new transfer and its event.
abbrev pub with_request : Transfer → OutboxRow → Db → Db
with_request t row db = record db {
  transfers = db.transfers ++ t ∷ [];
  outbox_events = db.outbox_events ++ row ∷ [];
}

-- The row of the event of a new transfer.
abbrev pub IsOrder : OutboxRow → Transfer → Type 0
IsOrder row t =
    IsNews row t.id event_transfer_requested
    × (row.payload ≡ marshal_requested (requested_payload t))

-- What the transaction has written when it returns no error.
pub store_ok :
    (t : Transfer) (w : World)
    → (store t w).0 ≡ ok tt
    → (clashes t w.working.transfers ≡ false)
      × (row : OutboxRow) × IsOrder row t
      × ((store t w).1.working ≡ with_request t row w.working)
unfolding store new_id now on_error
store_ok t w h =
    let (_, e0, h0, q0) = bind_ok (on_error insert_retry (insert t)) _ w h in
    let (fresh, inserted) = insert_ok t w (on_error_ok insert_retry (insert t) w e0).0 in
    let w1 = (insert t w).1 in
    let (id, e1, h1, q1) = bind_ok new_id _ w1 h0 in
    let w2 = (new_id w1).1 in
    let (at, e2, h2, q2) = bind_ok now _ w2 h1 in
    let w3 = (now w2).1 in
    let evt =
      transfer_event id t.id event_transfer_requested (marshal_requested (requested_payload t))
        at in
    (
      fresh,
      new_row evt (w3.outside.clock w3.ticks),
      ((refl, refl, refl), refl),
      ap (λ (x : Result (Unit {0}) × World). x.1.working) (q0 ∙ q1 ∙ q2)
          ∙ (publish_ok evt w3 h2).1
          ∙ ap
              (λ (db : Db). record db {
                outbox_events = db.outbox_events ++ new_row evt (w3.outside.clock w3.ticks) ∷ [];
              })
              inserted,
    )

-- A transfer that clashes with no row is found by its request once it is inserted.
pub find_request_new :
    (t : Transfer) (rows : List Transfer)
    → clashes t rows ≡ false
    → find_request t.app_request_id (rows ++ t ∷ []) ≡ some t
find_request_new t [] e = rw (eq_refl t.app_request_id) refl
find_request_new t (row ∷ rows) e = ground (
  arith,
  find_request_new t rows,
  eq_iff row.app_request_id t.app_request_id,
  eq_iff t.app_request_id row.app_request_id,
)
