-- ===== src/Transfer/Check/Outcome.antt =====
-- How a run of `CheckStatusHandler.Handle` may end
-- (internal/modules/transfer/application/handler_check_status.go).
use go_sunabar_payments.Base.{
  ◌≡◌, refl, ap, ◌∙◌, ◌⊎◌, inl, inr, true, false, List, [], ◌++◌, some, String, eq_iff, arith,
  Bool-cases,
}
use go_sunabar_payments.Platform.Errors.{Error, Result, ok, err}
use go_sunabar_payments.Platform.World.{Db, World, continue, pure, raise, ◌>>=◌}
use go_sunabar_payments.Platform.Sql.Atomicity.{
  entered, do_tx_ok, do_tx_err, do_tx-Quiet, working-entered,
}
use go_sunabar_payments.Transfer.Status.{Status, is_terminal, same_status}
use go_sunabar_payments.Transfer.Entity.{Transfer}
use go_sunabar_payments.Transfer.Repository.{find_transfer, update_rows, written}
use go_sunabar_payments.Transfer.Repository.Rows.{find-update_rows}
use go_sunabar_payments.Transfer.Check.{apply_body, apply_status, in_flight, observe}
use go_sunabar_payments.Transfer.Check.Effects.{Moves, Told, apply_ok, Keeps-apply_body}
use go_sunabar_payments.Outbox.Event.{OutboxRow}

-- The tables `after` are those `before` with the transfer moved along the graph to the state that
-- the bank reports, one version on, and with the event of the new state, if it has one.
pub record Moved (t : Transfer) (to : Status) (before after : Db) : Type 0 where
  pub t' : Transfer
  pub events : List OutboxRow
  pub live : is_terminal t.status ≡ false
  pub moves : Moves t to t'
  pub told : Told t.id to events
  pub row : find_transfer t.id after.transfers ≡ some (written t' t)
  pub outbox : after.outbox_events ≡ before.outbox_events ++ events

-- What may have become of the transfer `t` when it has been observed in the state `to`: it is as it
-- was, or it has moved; and if there is no error, it stands in a terminal state.
pub record Observed (t : Transfer) (to : Status) (w : World) (out : Result (Unit {0}) × World)
    : Type 0 where
  pub change : (out.1.committed ≡ w.committed) ⊎ Moved t to w.committed out.1.committed
  pub final :
      out.0 ≡ ok tt
      → (t' : Transfer) × (find_transfer t.id out.1.committed.transfers ≡ some t')
        × (is_terminal t'.status ≡ true)
  pub requests : out.1.requests ≡ w.requests

in_flight_state : (to : Status) (w : World) → (in_flight to w).1 ≡ w
unfolding pure raise
in_flight_state to w = elim (Bool-cases (is_terminal to)) [ inl y ↦ rw y refl | inr n ↦ rw n refl ]

in_flight_ok : (to : Status) (w : World) → (in_flight to w).0 ≡ ok tt → is_terminal to ≡ true
unfolding pure raise
in_flight_ok to w h = ground arith

moved_row :
    (t t' : Transfer) (rows : List Transfer)
    → t'.id ≡ t.id
    → t'.version ≡ t.version
    → find_transfer t.id rows ≡ some t
    → find_transfer t.id (update_rows t' rows).1 ≡ some (written t' t)
moved_row t t' rows i v e =
    find-update_rows t.id t' rows e ∙ ap some (ground (arith, eq_iff t.id t'.id))

module _ (t : Transfer) (to : Status) (detail apply_no : String) (w : World) (alone : w.others ≡ [])
    (found : find_transfer t.id w.committed.transfers ≡ some t) where
  applied :
      is_terminal t.status ≡ false
      → (apply_status t to detail apply_no w).0 ≡ ok tt
      → Moved t to w.committed (apply_status t to detail apply_no w).1.committed
  unfolding apply_status
  applied live h =
      let (body, done) =
        do_tx_ok (apply_body t to detail apply_no) w (Keeps-apply_body t to detail apply_no) h in
      let (t', events, moves, _, told, tables) = apply_ok t to detail apply_no (entered w) body in
      let after = done ∙ tables in
      let start = working-entered w alone in
      record {
        t' = t';
        events = events;
        live = live;
        moves = moves;
        told = told;
        row =
            ap (λ (db : Db). find_transfer t.id db.transfers) after
            ∙ ap (λ (db : Db). find_transfer t.id (update_rows t' db.transfers).1) start
            ∙ moved_row t t' w.committed.transfers moves.same_id moves.same_version found;
        outbox =
            ap (λ (db : Db). db.outbox_events) after
            ∙ ap (λ (db : Db). db.outbox_events ++ events) start;
      }

  apply_unchanged :
      (e : Error)
      → (apply_status t to detail apply_no w).0 ≡ err e
      → (apply_status t to detail apply_no w).1.committed ≡ w.committed
  unfolding apply_status
  apply_unchanged e h =
      do_tx_err (apply_body t to detail apply_no) w (Keeps-apply_body t to detail apply_no) h
      ∙ rw alone refl

  apply_requests : (apply_status t to detail apply_no w).1.requests ≡ w.requests
  unfolding apply_status
  apply_requests =
      (do_tx-Quiet (apply_body t to detail apply_no) w
        (Keeps-apply_body t to detail apply_no)).requests

  quiet :
      (w' : World)
      → w'.committed ≡ w.committed
      → w'.requests ≡ w.requests
      → (r : Result (Unit {0})) → (r ≡ ok tt → is_terminal t.status ≡ true)
      → Observed t to w (r, w')
  quiet w' same asked r final = record {
    change = inl same;
    final = λ h. (t, ap (λ (db : Db). find_transfer t.id db.transfers) same ∙ found, final h);
    requests = asked;
  }

  moved_final :
      (after : Db)
      → Moved t to w.committed after
      → is_terminal to ≡ true
      → (t' : Transfer) × (find_transfer t.id after.transfers ≡ some t')
        × (is_terminal t'.status ≡ true)
  moved_final after m y = (written m.t' t, m.row, ap is_terminal m.moves.status ∙ y)

  then_in_flight :
      (o : Result (Unit {0}) × World)
      → is_terminal t.status ≡ false
      → (o.0 ≡ ok tt → Moved t to w.committed o.1.committed)
      → ((e : Error) → o.0 ≡ err e → o.1.committed ≡ w.committed)
      → o.1.requests ≡ w.requests
      → Observed t to w (continue o.0 (λ _. in_flight to) o.1)
  then_in_flight (ok _, w') live good bad asked = record {
    change = inr (rw (in_flight_state to w') (good refl));
    final = λ h.
        moved_final (in_flight to w').1.committed (rw (in_flight_state to w') (good refl))
          (in_flight_ok to w' h);
    requests = ap (λ (x : World). x.requests) (in_flight_state to w') ∙ asked;
  }
  then_in_flight (err e, w') live good bad asked = quiet w' (bad e refl) asked (err e) (λ h. cc)

  same_state : same_status t.status to ≡ true → t.status ≡ to
  same_state e = ground arith

  stays : t.status ≡ to → Observed t to w (in_flight to w)
  stays same = record {
    change = inl (ap (λ (x : World). x.committed) (in_flight_state to w));
    final = λ h. (
      t,
      ap (λ (x : World). find_transfer t.id x.committed.transfers) (in_flight_state to w) ∙ found,
      ap is_terminal same ∙ in_flight_ok to w h,
    );
    requests = ap (λ (x : World). x.requests) (in_flight_state to w);
  }

  pub observed : Observed t to w (observe t to detail apply_no w)
  unfolding observe pure ◌>>=◌
  observed = elim (Bool-cases (is_terminal t.status)) [
    | inl y ↦ rw y (quiet w refl refl (ok tt) (λ _. y))
    | inr n ↦ elim (Bool-cases (same_status t.status to)) [
      | inl y ↦ rw (n, y) (stays (same_state y))
      | inr m ↦
          rw (n, m)
            (then_in_flight (apply_status t to detail apply_no w) n (applied n)
              (λ e h. apply_unchanged e h) apply_requests)
    ]
  ]
