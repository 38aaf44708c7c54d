-- ===== src/Transfer/Send/Refusal.antt =====
-- What the transaction writes that marks a transfer FAILED
-- (internal/modules/transfer/application/handler_send_to_sunabar.go).
use go_sunabar_payments.Base.{ℕ, ◌+◌, ◌≡◌, refl, ap, ◌∙◌, ◌≢◌, [], ◌∷◌, ◌++◌, some, String, arith}
use mathlib.Core.Path.{subst}
use go_sunabar_payments.Platform.Errors.{Error, Result, ok, wrapped, error_text}
use go_sunabar_payments.Platform.World.{Db, World, on_error, lift, now, ◌>>=◌, new_id}
use go_sunabar_payments.Platform.World.Inversion.{bind_ok, on_error_ok}
use go_sunabar_payments.Transfer.Status.{pending, failed}
use go_sunabar_payments.Transfer.Entity.{Transfer, mark_failed}
use go_sunabar_payments.Transfer.Payload.{marshal_state_changed, event_transfer_failed}
use go_sunabar_payments.Transfer.Repository.{update_rows, update}
use go_sunabar_payments.Transfer.Gateway.{transfer_event, map_state_change_event}
use go_sunabar_payments.Transfer.Send.{state_changed, publish_state_changed, fail_transfer}
use go_sunabar_payments.Transfer.Send.Effects.{IsNews, accept_tables}
use go_sunabar_payments.Outbox.Event.{OutboxRow}
use go_sunabar_payments.Outbox.Publisher.{new_row}
use go_sunabar_payments.Outbox.Publisher.Effect.{publish_ok}

-- The transfer once it has failed for a reason.
abbrev pub refused : Transfer → String → ℕ → Transfer
refused t reason at = record t { status = failed; updated_at = at; last_error = some reason }

mark_failed_ok :
    (t t' : Transfer) (reason : String) (at : ℕ)
    → mark_failed t reason at ≡ ok t'
    → t' ≡ refused t reason at
unfolding mark_failed
mark_failed_ok t t' reason at h = ground arith

refused-IsNews :
    (t : Transfer) (reason : String) (w : World)
    → (publish_state_changed t pending failed "" reason w).0 ≡ ok tt
    → (row : OutboxRow) × IsNews row t.id event_transfer_failed
      × (row.payload ≡ marshal_state_changed (state_changed t pending failed "" reason))
      × ((publish_state_changed t pending failed "" reason w).1.working
          ≡ record w.working { outbox_events = w.working.outbox_events ++ row ∷ [] })
unfolding publish_state_changed map_state_change_event ◌>>=◌ new_id now
refused-IsNews t reason w h =
    let w' = record w { ids = w.ids + 1; ticks = w.ticks + 1 } in
    let e =
      transfer_event (w.outside.fresh_id w.ids) t.id event_transfer_failed
        (marshal_state_changed (state_changed t pending failed "" reason))
        (w.outside.clock w.ticks) in
    (new_row e (w'.outside.clock w'.ticks), (refl, refl, refl), refl, (publish_ok e w' h).1)

-- The tables after a refusal, by the row updated and the row of the event.
abbrev pub refused_tables : Transfer → OutboxRow → Db → Db
refused_tables t news db = record db {
  transfers = (update_rows t db.transfers).1;
  outbox_events = db.outbox_events ++ news ∷ [];
}

-- What the transaction has written when it returns no error.
pub refuse_ok :
    (t : Transfer) (e : Error) (w : World)
    → (fail_transfer t e w).0 ≡ ok tt
    → (at : ℕ) × (news : OutboxRow) × ((update_rows
          (refused t (error_text e) at)
          w.working.transfers).0
        ≢ 0)
      × IsNews news t.id event_transfer_failed
      × ((fail_transfer t e w).1.working
          ≡ refused_tables (refused t (error_text e) at) news w.working)
unfolding fail_transfer now lift on_error
refuse_ok t e w h =
    let (at, e0, h0, q0) = bind_ok now _ w h in
    let (t1, e1, h1, q1) = bind_ok _ _ (now w).1 h0 in
    let (t2, e2, h2, q2) = bind_ok _ _ _ h1 in
    let w1 = (now w).1 in
    let is_refused : t1 ≡ refused t (error_text e) at =
      mark_failed_ok t t1 (error_text e) at
        (on_error_ok (wrapped "mark failed") (lift (mark_failed t (error_text e) at)) w1 e1).0 in
    let (counted, is_t2, updated) =
      accept_tables t1 t2 w w1 refl
        (on_error_ok (wrapped "update transfer ( failed ) ") (update t1) w1 e2).0 in
    let (news, is_news, _, told) = refused-IsNews t2 (error_text e) (update t1 w1).1 h2 in
    let same_id : t2.id ≡ t.id =
      ap (λ (x : Transfer). x.id) is_t2 ∙ ap (λ (x : Transfer). x.id) is_refused in
    (
      at,
      news,
      subst (λ x. (update_rows x w.working.transfers).0 ≢ 0) is_refused counted,
      (is_news.0 ∙ same_id, is_news.1, is_news.2),
      ap (λ (x : Result (Unit {0}) × World). x.1.working) (q0 ∙ q1 ∙ q2)
          ∙ told
          ∙ ap (λ (db : Db). record db { outbox_events = db.outbox_events ++ news ∷ [] }) updated
          ∙ ap (λ x. refused_tables x news w.working) is_refused,
    )
