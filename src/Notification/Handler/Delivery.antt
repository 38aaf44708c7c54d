-- ===== src/Notification/Handler/Delivery.antt =====
-- How often the user is told of an event (internal/modules/notification/application/handler.go).
use go_sunabar_payments.Base.{
  ◌≡◌, refl, sym, ap, ◌∙◌, ◌≢◌, true, List, [], ◌++◌, Option, none, some, String, arith, Bool-cases,
  inl, inr,
}
use go_sunabar_payments.Platform.Errors.{
  Error, Result, ok, err, already_processed, errors_is, sentinel,
}
use go_sunabar_payments.Platform.World.{Db, World, pure, raise, ◌>>=◌, on_error}
use go_sunabar_payments.Platform.Sql.{statement, exec_db, rows_affected}
use go_sunabar_payments.Platform.Sql.Keeps.{Frame-statement}
use go_sunabar_payments.Outbox.Event.{Event}
use go_sunabar_payments.Outbox.Processed.{is_processed, insert_processed, mark_processed}
use go_sunabar_payments.Outbox.Processed.Once.{processed_once, mark_processed_ok, is_processed_last}
use go_sunabar_payments.Notification.Notice.{Notice}
use go_sunabar_payments.Notification.Handler.{
  consumer_name, build_notice, send, notify, after_mark, handle,
}

mark_notices :
    (id consumer : String) (w : World) → (mark_processed id consumer w).1.notices ≡ w.notices
unfolding mark_processed insert_processed exec_db rows_affected on_error pure raise ◌>>=◌
mark_notices id consumer w =
    ground (arith, Frame-statement w, Frame-statement (exec_db (insert_processed id consumer) w).1)

-- When the event is not marked, no notice is handed over.
unmarked : (evt : Event) (o : Result (Unit {0}) × World) → o.0 ≢ ok tt → (after_mark evt o).1 ≡ o.1
unfolding after_mark
unmarked evt (ok _, w) h = absurd (h refl)
unmarked evt (err e, w) h = elim (Bool-cases (errors_is e already_processed)) [
  | inl y ↦ rw y refl
  | inr n ↦ rw n refl
]

notify_rows : (o : Option Notice) (w : World) → (notify o w).1.committed ≡ w.committed
unfolding notify send
notify_rows none w = refl
notify_rows (some n) w = refl

-- The table after a run in which a notice was handed over is the one that marking the event left.
marked :
    (evt : Event) (w : World)
    → (handle evt w).1.notices ≢ w.notices
    → (o : Result (Unit {0}) × World) → mark_processed evt.id consumer_name w ≡ o
    → (o.0 ≡ ok tt) × ((handle evt w).1.committed ≡ o.1.committed)
unfolding handle after_mark
marked evt w told (ok _, w') q = (refl, rw q (notify_rows (build_notice evt) w'))
marked evt w told (err e, w') q = absurd (
    told (
      ap (λ (x : Result (Unit {0}) × World). (after_mark evt x).1.notices) q
      ∙ ap (λ (x : World). x.notices) (unmarked evt (err e, w') (λ h. cc))
      ∙ ap (λ (x : Result (Unit {0}) × World). x.1.notices) (sym q)
      ∙ mark_notices evt.id consumer_name w))

-- An event of which a notice has been handed over is never told of again, however often the relay
-- hands it out, whichever statements fail and whatever the sender answers, as long as rows are only
-- added to the table of processed events.
pub told_once :
    (evt : Event) (w w' : World) (more : List (String × String))
    → (handle evt w).1.notices ≢ w.notices
    → w'.committed.event_processed ≡ (handle evt w).1.committed.event_processed ++ more
    → (handle evt w').1.notices ≡ w'.notices
unfolding handle
told_once evt w w' more told kept =
    let (first, same) = marked evt w told (mark_processed evt.id consumer_name w) refl in
    let refused =
      processed_once evt.id consumer_name w w' more first
        (kept ∙ ap (λ (db : Db). db.event_processed ++ more) same) in
    ap (λ (x : World). x.notices) (unmarked evt (mark_processed evt.id consumer_name w') refused)
    ∙ mark_notices evt.id consumer_name w'

processed_again :
    (id consumer : String) (w : World)
    → w.faults ≡ []
    → is_processed id consumer w.committed.event_processed ≡ true
    → mark_processed id consumer w ≡ (err (sentinel already_processed), w)
unfolding mark_processed insert_processed exec_db rows_affected statement on_error pure raise ◌>>=◌
processed_again id consumer w sound seen = rw (sound, seen) refl

after_mark_rows :
    (evt : Event) (o : Result (Unit {0}) × World) → (after_mark evt o).1.committed ≡ o.1.committed
unfolding after_mark
after_mark_rows evt (ok _, w) = notify_rows (build_notice evt) w
after_mark_rows evt (err e, w) = ap (λ (x : World). x.committed) (unmarked evt (err e, w) (λ h. cc))

refused_notice :
    (evt : Event) (n : Notice) (o : Result (Unit {0}) × World) {e : Error}
    → o.0 ≡ ok tt
    → build_notice evt ≡ some n
    → o.1.outside.deliver o.1.calls n ≡ some e
    → (after_mark evt o).0 ≡ err e
unfolding after_mark notify send
refused_notice evt n (ok _, w) p q r = rw (q, r) refl
refused_notice evt n (err x, w) p q r = cc

-- A notice that the sender refuses is lost: the handler returns the error, but the event stays
-- marked, so that the next attempt of the relay, with the tables as they are left and no statement
-- failing, returns no error and hands nothing over.
pub refused_notice_is_lost :
    (evt : Event) (n : Notice) (w w' : World) {e : Error}
    → (mark_processed evt.id consumer_name w).0 ≡ ok tt
    → build_notice evt ≡ some n
    → let marked = (mark_processed evt.id consumer_name w).1 in
      marked.outside.deliver marked.calls n ≡ some e
      → w'.committed ≡ (handle evt w).1.committed
      → w'.faults ≡ []
      → ((handle evt w).0 ≡ err e) × (handle evt w' ≡ (ok tt, w'))
unfolding handle
refused_notice_is_lost evt n w w' {e} first built refused kept sound =
    let (_, added) = mark_processed_ok evt.id consumer_name w first in
    let left = after_mark_rows evt (mark_processed evt.id consumer_name w) in
    (
      refused_notice evt n (mark_processed evt.id consumer_name w) {e = e} first built refused,
      ap (after_mark evt) (
          processed_again evt.id consumer_name w' sound (
            ap (λ (db : Db). is_processed evt.id consumer_name db.event_processed) (kept ∙ left)
            ∙ ap (is_processed evt.id consumer_name) added
            ∙ is_processed_last evt.id consumer_name w.committed.event_processed)),
    )
