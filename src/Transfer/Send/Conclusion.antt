-- ===== src/Transfer/Send/Conclusion.antt =====
-- What becomes of a transfer when the bank has answered
-- (internal/modules/transfer/application/handler_send_to_sunabar.go).
use go_sunabar_payments.Base.{
  ℕ, ◌+◌, ◌≡◌, refl, ap, ◌∙◌, inl, inr, true, false, List, [], ◌∷◌, ◌++◌, some, String, arith,
  Bool-cases, eq_iff,
}
use go_sunabar_payments.Platform.Errors.{Error, Result, ok, err, error_text}
use go_sunabar_payments.Platform.Bank.{TransferResult}
use go_sunabar_payments.Platform.World.{Db, World, ◌>>=◌, now}
use go_sunabar_payments.Platform.Sql.Atomicity.{entered, do_tx_ok, working-entered}
use go_sunabar_payments.Transfer.Entity.{Transfer}
use go_sunabar_payments.Transfer.Breaker.{record_success, record_failure}
use go_sunabar_payments.Transfer.Payload.{
  event_transfer_accepted_to_bank, event_transfer_status_check, event_transfer_failed,
  marshal_status_check,
}
use go_sunabar_payments.Transfer.Repository.{find_transfer, update_rows, written}
use go_sunabar_payments.Transfer.Repository.Rows.{find-update_rows}
use go_sunabar_payments.Transfer.Gateway.{breaker_success, breaker_failure, is_retryable}
use go_sunabar_payments.Transfer.Send.{accept_transfer, fail_transfer, answered}
use go_sunabar_payments.Transfer.Send.Effects.{
  IsNews, accepted, accepted_tables, accept_ok, Keeps-accept_transfer, Keeps-fail_transfer,
}
use go_sunabar_payments.Transfer.Send.Refusal.{refused, refused_tables, refuse_ok}
use go_sunabar_payments.Outbox.Event.{OutboxRow}

-- The tables `after` are those `before` with the transfer REQUESTED under the bank's number, one
-- version on, and two new events: the notification, and the order to look up the result.
pub record Accepted (t : Transfer) (apply_no : String) (before after : Db) : Type 0 where
  pub at : ℕ
  pub news : OutboxRow
  pub order : OutboxRow
  pub news_type : IsNews news t.id event_transfer_accepted_to_bank
  pub order_type : IsNews order t.id event_transfer_status_check
  pub order_payload :
      order.payload ≡ marshal_status_check (record { transfer_id = t.id; apply_no = apply_no })
  pub row :
      find_transfer t.id after.transfers
      ≡ some (record (accepted t apply_no at) { version = t.version + 1 })
  pub events : after.outbox_events ≡ (before.outbox_events ++ news ∷ []) ++ order ∷ []

-- The tables `after` are those `before` with the transfer FAILED for the reason of the bank, one
-- version on, and one new event.
pub record Refused (t : Transfer) (e : Error) (before after : Db) : Type 0 where
  pub at : ℕ
  pub news : OutboxRow
  pub news_type : IsNews news t.id event_transfer_failed
  pub row :
      find_transfer t.id after.transfers
      ≡ some (record (refused t (error_text e) at) { version = t.version + 1 })
  pub events : after.outbox_events ≡ before.outbox_events ++ news ∷ []

-- An update of the row of a transfer that counts finds it at the version of the record.
updated_row :
    (t new : Transfer) (rows : List Transfer)
    → new.id ≡ t.id
    → new.version ≡ t.version
    → find_transfer t.id rows ≡ some t
    → find_transfer t.id (update_rows new rows).1 ≡ some (written new t)
updated_row t new rows i v e =
    find-update_rows t.id new rows e ∙ ap some (ground (arith, eq_iff t.id new.id))

accepted_lem :
    (t : Transfer) (res : TransferResult) (w : World)
    → w.others ≡ []
    → find_transfer t.id w.committed.transfers ≡ some t
    → (answered t (ok res) w).0 ≡ ok tt
    → Accepted t res.apply_no w.committed (answered t (ok res) w).1.committed
unfolding answered now breaker_success ◌>>=◌
accepted_lem t res w alone found h =
    let w' : World = record w {
      ticks = w.ticks + 1;
      breaker = record_success w.breaker (w.outside.clock w.ticks);
    } in
    let start = working-entered w' alone in
    let (body, done) =
      do_tx_ok (accept_transfer t res.apply_no) w' (Keeps-accept_transfer t res.apply_no) h in
    let (at, news, order, _, is_news, is_order, payload, tables) =
      accept_ok t res.apply_no (entered w') body in
    let after =
      done ∙ tables ∙ ap (accepted_tables (accepted t res.apply_no at) news order) start in
    record {
      at = at;
      news = news;
      order = order;
      news_type = is_news;
      order_type = is_order;
      order_payload = payload;
      row =
          ap (λ (db : Db). find_transfer t.id db.transfers) after
          ∙ updated_row t (accepted t res.apply_no at) w.committed.transfers refl refl found;
      events = ap (λ (db : Db). db.outbox_events) after;
    }

refused_lem :
    (t : Transfer) (e : Error) (w : World)
    → is_retryable e ≡ false
    → w.others ≡ []
    → find_transfer t.id w.committed.transfers ≡ some t
    → (answered t (err e) w).0 ≡ ok tt
    → Refused t e w.committed (answered t (err e) w).1.committed
unfolding answered now breaker_success ◌>>=◌
refused_lem t e w final alone found h =
    let w' : World = record w {
      ticks = w.ticks + 1;
      breaker = record_success w.breaker (w.outside.clock w.ticks);
    } in
    let start = working-entered w' alone in
    let (body, done) = do_tx_ok (fail_transfer t e) w' (Keeps-fail_transfer t e) (rw final at h) in
    let (at, news, _, is_news, tables) = refuse_ok t e (entered w') body in
    let after = done ∙ tables ∙ ap (refused_tables (refused t (error_text e) at) news) start in
    rw final (record {
      at = at;
      news = news;
      news_type = is_news;
      row =
          ap (λ (db : Db). find_transfer t.id db.transfers) after
          ∙ updated_row t (refused t (error_text e) at) w.committed.transfers refl refl found;
      events = ap (λ (db : Db). db.outbox_events) after;
    })

pub retry_error :
    (t : Transfer) (e : Error) (w : World)
    → is_retryable e ≡ true
    → answered t (err e) w ≡ (
      err e,
      record w {
        ticks = w.ticks + 1;
        breaker = record_failure w.breaker (w.outside.clock w.ticks);
      },
    )
unfolding answered now breaker_failure ◌>>=◌
retry_error t e w y = rw y refl

-- What has become of a transfer that was PENDING, when the answer to its request is dealt with.
abbrev pub Concluded : Transfer → Result TransferResult → Db → Db → Type 0
Concluded t (ok res) before after = Accepted t res.apply_no before after
Concluded t (err e) before after = (is_retryable e ≡ false) × Refused t e before after

not_both : (r : Result (Unit {0})) (e : Error) → r ≡ err e → r ≡ ok tt → ⊥
not_both r e p q = cc

pub answered-Concluded :
    (t : Transfer) (r : Result TransferResult) (w : World)
    → w.others ≡ []
    → find_transfer t.id w.committed.transfers ≡ some t
    → (answered t r w).0 ≡ ok tt
    → Concluded t r w.committed (answered t r w).1.committed
answered-Concluded t (ok res) w alone found h = accepted_lem t res w alone found h
answered-Concluded t (err e) w alone found h = elim (Bool-cases (is_retryable e)) [
  | inl y ↦ absurd (
      not_both (answered t (err e) w).0 e
        (ap (λ (o : Result (Unit {0}) × World). o.0) (retry_error t e w y)) h)
  | inr n ↦ (n, refused_lem t e w n alone found h)
]
