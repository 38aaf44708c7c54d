-- ===== src/Transfer/Send/Effects.antt =====
-- What the transactions of
-- internal/modules/transfer/application/handler_send_to_sunabar.go write.
use go_sunabar_payments.Base.{ℕ, ◌+◌, ◌≡◌, refl, ap, ◌∙◌, ◌≢◌, [], ◌∷◌, ◌++◌, some, String, arith}
use mathlib.Core.Path.{subst}
use go_sunabar_payments.Platform.Errors.{Error, Result, ok, wrapped}
use go_sunabar_payments.Platform.World.{Db, World, ◌>>=◌, on_error, lift, now, new_id}
use go_sunabar_payments.Platform.World.Inversion.{bind_ok, on_error_ok}
use go_sunabar_payments.Platform.Sql.Keeps.{Keeps, keeps_rules}
use go_sunabar_payments.Transfer.Status.{Status, pending, requested}
use go_sunabar_payments.Transfer.Entity.{Transfer, mark_requested}
use go_sunabar_payments.Transfer.Payload.{
  marshal_state_changed, marshal_status_check, event_transfer_accepted_to_bank,
  event_transfer_status_check,
}
use go_sunabar_payments.Transfer.Repository.{update_rows, update}
use go_sunabar_payments.Transfer.Repository.Locking.{update_ok, Keeps-update}
use go_sunabar_payments.Transfer.Gateway.{transfer_event, map_state_change_event}
use go_sunabar_payments.Transfer.Send.{
  state_changed, publish_state_changed, fail_transfer, announce, accept_transfer,
}
use go_sunabar_payments.Outbox.Event.{OutboxRow}
use go_sunabar_payments.Outbox.Publisher.{new_row}
use go_sunabar_payments.Outbox.Publisher.Effect.{publish_ok, Keeps-publish}

Keeps-publish_state_changed :
    (t : Transfer) (from to : Status) (apply_no message : String)
    → Keeps (publish_state_changed t from to apply_no message)
unfolding publish_state_changed
Keeps-publish_state_changed t from to apply_no message = search (keeps_rules, Keeps-publish)

Keeps-announce : (t : Transfer) (apply_no : String) (at : ℕ) → Keeps (announce t apply_no at)
unfolding announce
Keeps-announce t apply_no at =
    search (keeps_rules, Keeps-publish, Keeps-publish_state_changed) depth 8

pub Keeps-accept_transfer : (t : Transfer) (apply_no : String) → Keeps (accept_transfer t apply_no)
unfolding accept_transfer
Keeps-accept_transfer t apply_no = search (keeps_rules, Keeps-update, Keeps-announce) depth 8

pub Keeps-fail_transfer : (t : Transfer) (e : Error) → Keeps (fail_transfer t e)
unfolding fail_transfer
Keeps-fail_transfer t e = search (keeps_rules, Keeps-update, Keeps-publish_state_changed)

-- The row that a new event of a transfer makes.
abbrev pub IsNews : OutboxRow → String → String → Type 0
IsNews row transfer_id event_type =
    (row.aggregate_id ≡ transfer_id) × (row.event_type ≡ event_type) × (row.attempt_count ≡ 0)

accepted-IsNews :
    (t : Transfer) (apply_no : String) (w : World)
    → (publish_state_changed t pending requested apply_no "" w).0 ≡ ok tt
    → (row : OutboxRow) × IsNews row t.id event_transfer_accepted_to_bank
      × (row.payload ≡ marshal_state_changed (state_changed t pending requested apply_no ""))
      × ((publish_state_changed t pending requested apply_no "" w).1.working
          ≡ record w.working { outbox_events = w.working.outbox_events ++ row ∷ [] })
unfolding publish_state_changed map_state_change_event ◌>>=◌ new_id now
accepted-IsNews t apply_no w h =
    let w' = record w { ids = w.ids + 1; ticks = w.ticks + 1 } in
    let e =
      transfer_event (w.outside.fresh_id w.ids) t.id event_transfer_accepted_to_bank
        (marshal_state_changed (state_changed t pending requested apply_no ""))
        (w.outside.clock w.ticks) in
    (new_row e (w'.outside.clock w'.ticks), (refl, refl, refl), refl, (publish_ok e w' h).1)

-- The transfer once the bank has accepted it at an instant.
abbrev pub accepted : Transfer → String → ℕ → Transfer
accepted t apply_no at = record t { status = requested; updated_at = at; apply_no = some apply_no }

mark_requested_ok :
    (t t' : Transfer) (apply_no : String) (at : ℕ)
    → mark_requested t apply_no at ≡ ok t'
    → t' ≡ accepted t apply_no at
unfolding mark_requested
mark_requested_ok t t' apply_no at h = ground arith

-- The tables after an acceptance, by the row updated and the rows of the two events.
abbrev pub accepted_tables : Transfer → OutboxRow → OutboxRow → Db → Db
accepted_tables t news order db = record db {
  transfers = (update_rows t db.transfers).1;
  outbox_events = (db.outbox_events ++ news ∷ []) ++ order ∷ [];
}

announce_ok :
    (t : Transfer) (apply_no : String) (at : ℕ) (w : World)
    → (announce t apply_no at w).0 ≡ ok tt
    → (news order : OutboxRow) × IsNews news t.id event_transfer_accepted_to_bank
      × IsNews order t.id event_transfer_status_check
      × (order.payload ≡ marshal_status_check (record { transfer_id = t.id; apply_no = apply_no }))
      × ((announce t apply_no at w).1.working ≡ record w.working {
        outbox_events = (w.working.outbox_events ++ news ∷ []) ++ order ∷ [];
      })
unfolding announce new_id
announce_ok t apply_no at w h =
    let (_, e1, h1, q1) = bind_ok _ _ w h in
    let (news, is_news, _, first) = accepted-IsNews t apply_no w e1 in
    let w1 : World = (publish_state_changed t pending requested apply_no "" w).1 in
    let (id, e2, h2, q2) = bind_ok new_id _ w1 h1 in
    let w2 : World = record w1 { ids = w1.ids + 1 } in
    let evt =
      transfer_event id t.id event_transfer_status_check
        (marshal_status_check (record { transfer_id = t.id; apply_no = apply_no })) at in
    (
      news,
      new_row evt (w2.outside.clock w2.ticks),
      is_news,
      (refl, refl, refl),
      refl,
      ap (λ (x : Result (Unit {0}) × World). x.1.working) (q1 ∙ q2)
          ∙ (publish_ok evt w2 h2).1
          ∙ ap
              (λ (db : Db). record db {
                outbox_events = db.outbox_events ++ new_row evt (w2.outside.clock w2.ticks) ∷ [];
              })
              first,
    )

pub accept_tables :
    (t1 t2 : Transfer) (w w' : World)
    → w'.working ≡ w.working
    → (update t1 w').0 ≡ ok t2
    → ((update_rows t1 w.working.transfers).0 ≢ 0)
      × (t2 ≡ record t1 { version = t1.version + 1 })
      × ((update t1 w').1.working
          ≡ record w.working { transfers = (update_rows t1 w.working.transfers).1 })
accept_tables t1 t2 w w' same h = rw (← same) (go (update_ok t1 w' h))
  where
    go :
        (t2 ≡ record t1 { version = t1.version + 1 })
          × ((update_rows t1 w'.working.transfers).0 ≢ 0)
          × ((update t1 w').1.working
              ≡ record w'.working { transfers = (update_rows t1 w'.working.transfers).1 })
        → ((update_rows t1 w'.working.transfers).0 ≢ 0)
          × (t2 ≡ record t1 { version = t1.version + 1 })
          × ((update t1 w').1.working
              ≡ record w'.working { transfers = (update_rows t1 w'.working.transfers).1 })
    go (a, b, c) = (b, a, c)

-- What the transaction has written when it returns no error.
pub accept_ok :
    (t : Transfer) (apply_no : String) (w : World)
    → (accept_transfer t apply_no w).0 ≡ ok tt
    → (at : ℕ) × (news order : OutboxRow) × ((update_rows
          (accepted t apply_no at)
          w.working.transfers).0
        ≢ 0)
      × IsNews news t.id event_transfer_accepted_to_bank
      × IsNews order t.id event_transfer_status_check
      × (order.payload ≡ marshal_status_check (record { transfer_id = t.id; apply_no = apply_no }))
      × ((accept_transfer t apply_no w).1.working
          ≡ accepted_tables (accepted t apply_no at) news order w.working)
unfolding accept_transfer now lift on_error
accept_ok t apply_no w h =
    let (at, e0, h0, q0) = bind_ok now _ w h in
    let (t1, e1, h1, q1) = bind_ok _ _ (now w).1 h0 in
    let (t2, e2, h2, q2) = bind_ok _ _ _ h1 in
    let w1 = (now w).1 in
    let is_accepted : t1 ≡ accepted t apply_no at =
      mark_requested_ok t t1 apply_no at
        (on_error_ok (wrapped "mark requested") (lift (mark_requested t apply_no at)) w1 e1).0 in
    let (counted, is_t2, updated) =
      accept_tables t1 t2 w w1 refl
        (on_error_ok (wrapped "update transfer ( requested ) ") (update t1) w1 e2).0 in
    let (news, order, is_news, is_order, payload, announced) =
      announce_ok t2 apply_no at (update t1 w1).1 h2 in
    let same_id : t2.id ≡ t.id =
      ap (λ (x : Transfer). x.id) is_t2 ∙ ap (λ (x : Transfer). x.id) is_accepted in
    (
      at,
      news,
      order,
      subst (λ x. (update_rows x w.working.transfers).0 ≢ 0) is_accepted counted,
      (is_news.0 ∙ same_id, is_news.1, is_news.2),
      (is_order.0 ∙ same_id, is_order.1, is_order.2),
      payload
          ∙ ap (λ i. marshal_status_check (record { transfer_id = i; apply_no = apply_no }))
              same_id,
      ap (λ (x : Result (Unit {0}) × World). x.1.working) (q0 ∙ q1 ∙ q2)
          ∙ announced
          ∙ ap
              (λ (db : Db). record db {
                outbox_events = (db.outbox_events ++ news ∷ []) ++ order ∷ [];
              })
              updated
          ∙ ap (λ x. accepted_tables x news order w.working) is_accepted,
    )
