-- ===== src/Transfer/Request/Idempotent.antt =====
-- `RequestTransferUseCase.Execute`
-- (internal/modules/transfer/application/usecase_request.go) stores one transfer for each request
-- identifier.
use go_sunabar_payments.Base.{
  ◌+◌, ◌≡◌, refl, sym, ap, ◌∙◌, ◌⊎◌, inl, inr, List, [], ◌∷◌, ◌++◌, some, Bool-cases,
}
use mathlib.Core.Path.{subst}
use go_sunabar_payments.Platform.Errors.{
  Result, ok, err, not_found, already_exists_retry, errors_is,
}
use go_sunabar_payments.Platform.World.{Db, World, ◌>>=◌, on_error, now, new_id}
use go_sunabar_payments.Platform.Sql.{
  statement, query_db, read_committed, do_tx, interfered, apply_first,
}
use go_sunabar_payments.Platform.Sql.Atomicity.{
  AllOrNothing, entered, do_tx_atomic, entered-interfered,
}
use go_sunabar_payments.Transfer.Status.{pending}
use go_sunabar_payments.Transfer.Entity.{Transfer, new_transfer}
use go_sunabar_payments.Transfer.Repository.{
  clashes, find_request, scan_one, find_by_app_request_id,
}
use go_sunabar_payments.Transfer.Repository.Finding.{
  find_by_app_request_id_ok, Keeps-find_by_app_request_id,
}
use go_sunabar_payments.Transfer.Request.{Command, store, retried, create, after_lookup, execute}
use go_sunabar_payments.Transfer.Request.Effects.{
  IsOrder, with_request, store_ok, Keeps-store, find_request_new,
}
use go_sunabar_payments.Outbox.Event.{OutboxRow}

-- A transfer made for a command: PENDING, with the business fields of the command.
abbrev pub IsFor : Transfer → Command → Type 0
IsFor t cmd =
    (t.app_request_id ≡ cmd.app_request_id) × (t.status ≡ pending) × (t.params ≡ cmd.params)

-- How `Execute` may end that began with the tables `db`, while others have made `db'` of them: with an
-- error, or a transfer that is then the one stored under the request, the tables are one of these; or
-- the transfer returned is new and has been added to `db'` with its event.
pub data Ended (cmd : Command) (db db' : Db) (out : Result Transfer × World) : Type 0 where
  unchanged :
      (out.1.committed ≡ db) ⊎ (out.1.committed ≡ db')
      → ((t : Transfer)
          → out.0 ≡ ok t
          → find_request cmd.app_request_id out.1.committed.transfers ≡ some t)
      → Ended cmd db db' out
  added :
      (t : Transfer) (row : OutboxRow)
      → out.0 ≡ ok t
      → IsFor t cmd
      → IsOrder row t
      → out.1.committed ≡ with_request t row db'
      → find_request cmd.app_request_id out.1.committed.transfers ≡ some t
      → Ended cmd db db' out

looked_up :
    (cmd : Command) (db db' : Db) (w : World)
    → (w.committed ≡ db) ⊎ (w.committed ≡ db')
    → Ended cmd db db' (find_by_app_request_id cmd.app_request_id w)
looked_up cmd db db' w same =
    let kept = ((Keeps-find_by_app_request_id cmd.app_request_id).at w).committed in
    unchanged (subst (λ x. (x ≡ db) ⊎ (x ≡ db')) (sym kept) same) (λ t h.
      ap (λ (x : Db). find_request cmd.app_request_id x.transfers) kept
      ∙ find_by_app_request_id_ok cmd.app_request_id w h)

retried-Ended :
    (cmd : Command) (t : Transfer) (w : World) (db : Db)
    → IsFor t cmd
    → (o : Result (Unit {0}) × World) → do_tx (store t) w ≡ o
    → Ended cmd db (interfered w) (retried cmd t o)
unfolding retried
retried-Ended cmd t w db is_for (ok _, w') h =
    let (body, done) : AllOrNothing (interfered w) (store t (entered w)) (ok tt, w') =
      subst (λ x. AllOrNothing (interfered w) (store t (entered w)) x) h
        (do_tx_atomic (store t) w (Keeps-store t)) in
    let (fresh, row, is_order, wrote) = store_ok t (entered w) body in
    let start = entered-interfered w in
    let after : w'.committed ≡ with_request t row (interfered w) =
      done ∙ wrote ∙ ap (with_request t row) start in
    added t row refl is_for is_order after (
      ap (λ (x : Db). find_request cmd.app_request_id x.transfers) after
      ∙ ap (λ i. find_request i ((interfered w).transfers ++ t ∷ [])) (sym is_for.0)
      ∙ find_request_new t (interfered w).transfers
          (ap (λ (x : Db). clashes t x.transfers) (sym start) ∙ fresh))
retried-Ended cmd t w db is_for (err e, w') h =
    let same : w'.committed ≡ interfered w =
      (subst (λ x. AllOrNothing (interfered w) (store t (entered w)) x) h
        (do_tx_atomic (store t) w (Keeps-store t))).1 in
    elim (Bool-cases (errors_is e already_exists_retry)) [
      | inl y ↦ rw y (looked_up cmd db (interfered w) w' (inr same))
      | inr n ↦ rw n (unchanged (inr same) (λ t' q. cc))
    ]

create-Ended : (cmd : Command) (w : World) (db : Db) → Ended cmd db (interfered w) (create cmd w)
unfolding create new_id now new_transfer ◌>>=◌
create-Ended cmd w db =
    let t =
      new_transfer (w.outside.fresh_id w.ids) cmd.app_request_id (w.outside.fresh_id (w.ids + 1))
        cmd.params (w.outside.clock w.ticks) in
    let w' : World = record w { ids = w.ids + 1 + 1; ticks = w.ticks + 1 } in
    retried-Ended cmd t w' db (refl, refl, refl) (do_tx (store t) w') refl

after_lookup-Ended :
    (cmd : Command) (w : World) (o : Result Transfer × World)
    → find_by_app_request_id cmd.app_request_id w ≡ o
    → Ended cmd w.committed (interfered w) (after_lookup cmd o)
unfolding after_lookup
after_lookup-Ended cmd w (ok t, w') h =
    subst (λ x. Ended cmd w.committed (interfered w) x) h
      (looked_up cmd w.committed (interfered w) w (inl refl))
after_lookup-Ended cmd w (err e, w') h =
    let kept = (Keeps-find_by_app_request_id cmd.app_request_id).at w in
    let same : w'.committed ≡ w.committed =
      ap (λ (x : Result Transfer × World). x.1.committed) (sym h) ∙ kept.committed in
    let again : interfered w' ≡ interfered w =
      ap (λ (x : Result Transfer × World). interfered x.1) (sym h)
      ∙ ap
          (λ (os : List (Db → Db)).
            apply_first os (find_by_app_request_id cmd.app_request_id w).1.committed)
          kept.others
      ∙ ap (λ (x : Db). apply_first w.others x) kept.committed in
    elim (Bool-cases (errors_is e not_found)) [
      | inl y ↦ rw y (
          subst (λ x. Ended cmd w.committed x (create cmd w')) again
            (create-Ended cmd w' w.committed))
      | inr n ↦ rw n (unchanged (inl same) (λ t q. cc))
    ]

-- Whichever statements fail and whatever others commit, a run of the use case writes nothing and returns
-- an error, or the transfer that is then stored under the identifier of the request; or it returns a new
-- transfer, PENDING and with the fields of the command, adds it and one event for the relay to the
-- tables in one commit, and the transfer is then found under the identifier of the request.
pub execute-Ended :
    (cmd : Command) (w : World) → Ended cmd w.committed (interfered w) (execute cmd w)
unfolding execute
execute-Ended cmd w = after_lookup-Ended cmd w (find_by_app_request_id cmd.app_request_id w) refl

pub returned_is_stored :
    (cmd : Command) (db db' : Db) (out : Result Transfer × World) (t : Transfer)
    → Ended cmd db db' out
    → out.0 ≡ ok t
    → find_request cmd.app_request_id out.1.committed.transfers ≡ some t
returned_is_stored cmd db db' out t (unchanged _ found) h = found t h
returned_is_stored cmd db db' out t (added t' row q _ _ _ found) h =
    found ∙ ap some (same_value out.0 q h)
  where
    same_value : (r : Result Transfer) → r ≡ ok t' → r ≡ ok t → t' ≡ t
    same_value r a b = cc

known :
    (cmd : Command) (w : World) {t : Transfer}
    → w.faults ≡ []
    → find_request cmd.app_request_id w.committed.transfers ≡ some t
    → execute cmd w ≡ (ok t, w)
unfolding execute after_lookup find_by_app_request_id scan_one query_db statement read_committed
    on_error ◌>>=◌
known cmd w sound found = rw (sound, found) refl

-- A request that is repeated under the same identifier, with the tables as the first run has left
-- them and no statement failing, returns the transfer of the first run, whatever else the command
-- asks for, and changes nothing.
pub execute_idempotent :
    (cmd cmd' : Command) (w w' : World) {t : Transfer}
    → (execute cmd w).0 ≡ ok t
    → cmd'.app_request_id ≡ cmd.app_request_id
    → w'.committed ≡ (execute cmd w).1.committed
    → w'.faults ≡ []
    → execute cmd' w' ≡ (ok t, w')
execute_idempotent cmd cmd' w w' {t} h same kept sound = known cmd' w' sound (
    ap (λ i. find_request i w'.committed.transfers) same
    ∙ ap (λ (x : Db). find_request cmd.app_request_id x.transfers) kept
    ∙ returned_is_stored cmd w.committed (interfered w) (execute cmd w) t (execute-Ended cmd w) h)
