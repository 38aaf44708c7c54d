-- ===== src/Outbox/Relay/Limit.antt =====
-- The limit on attempts holds through `ProcessBatch` and `Run` (internal/platform/outbox/relay.go).
use go_sunabar_payments.Base.{
  ℕ, ◌≡◌, refl, sym, List, [], ◌∷◌, Option, none, some, String, All, str_eq, Bool-cases, inl, inr,
}
use mathlib.Core.Path.{subst}
use go_sunabar_payments.Platform.Errors.{Error, Result, ok, err}
use go_sunabar_payments.Platform.World.{Db, World, Action, continue, pure, ◌>>=◌}
use go_sunabar_payments.Platform.Sql.{statement, interfere, apply_first, rest_of}
use go_sunabar_payments.Platform.Sql.Keeps.{
  Frame, Frame-refl, Frame-statement, Keeps, Keeps-bind, Keeps-on_error, Keeps-statement,
  keeps_rules,
}
use go_sunabar_payments.Outbox.Event.{Event, OutboxRow}
use go_sunabar_payments.Outbox.Relay.{
  Handler, Relay, RowUpdate, find_handler, event_of, execute_update, settle_error, settle, handled,
  dispatch, dispatch_all, scan_rows, row_locks, select_batch, commit_updates, deliver_batch,
  give_up, selected, batch_begun, process_batch, run,
}
use go_sunabar_payments.Outbox.Relay.Backed.{Backed, dispatch_all_backed}
use go_sunabar_payments.Outbox.Relay.Attempts.{Bounded, write_all-HasAttempts}

-- The tables are within the limit, and whatever others commit keeps them there.
pub record Limited (r : Relay) (w : World) : Type 0 where
  pub bounded : Bounded r w.committed
  pub others : All (λ (o : Db → Db). (db : Db) → Bounded r db → Bounded r (o db)) w.others

-- The handlers of a relay keep the limit.
abbrev pub HandlersKeep : Relay → List (String × Handler) → Type 0
HandlersKeep r [] = Unit
HandlersKeep r ((k, h) ∷ handlers) =
    ((e : Event) (w : World) → Limited r w → Limited r (h e w).1) × HandlersKeep r handlers

Limited-Frame : (r : Relay) (w w' : World) → Frame w w' → Limited r w → Limited r w'
Limited-Frame r w w' f l = record {
  bounded = subst (λ (x : Db). Bounded r x) (sym f.committed) l.bounded;
  others =
      subst
        (λ (x : List (Db → Db)).
          All (λ (o : Db → Db). (db : Db) → Bounded r db → Bounded r (o db)) x)
        (sym f.others) l.others;
}

Keeps-execute_update : (u : RowUpdate) → Keeps (execute_update u)
unfolding execute_update
Keeps-execute_update u = record { at = Frame-statement }

Keeps-settle_error : (r : Relay) (id : String) (n : ℕ) (e : Error) → Keeps (settle_error r id n e)
unfolding settle_error
Keeps-settle_error r id n e = search (keeps_rules, Keeps-execute_update)

Keeps-settle :
    (r : Relay) (id : String) (n : ℕ) (res : Result (Unit {0})) → Keeps (settle r id n res)
unfolding settle
Keeps-settle r id n (ok _) = search (keeps_rules, Keeps-execute_update)
Keeps-settle r id n (err e) = Keeps-settle_error r id n e

Keeps-row_locks : Keeps row_locks
unfolding row_locks
Keeps-row_locks = record { at = Frame-refl }

Keeps-scan_rows : (rows : List OutboxRow) → Keeps (scan_rows rows)
unfolding scan_rows
Keeps-scan_rows [] = search keeps_rules
Keeps-scan_rows (row ∷ rows) =
    Keeps-bind _ _ (Keeps-on_error _ _ Keeps-statement) (λ _. Keeps-scan_rows rows)

pub Keeps-select_batch : (r : Relay) → Keeps (select_batch r)
unfolding select_batch
Keeps-select_batch r = search (keeps_rules, Keeps-row_locks, Keeps-scan_rows) depth 12

found_keeps :
    (r : Relay) (event_type : String) (handlers : List (String × Handler))
    → HandlersKeep r handlers
    → (h : Handler) → find_handler event_type handlers ≡ some h
    → (e : Event) (w : World) → Limited r w
    → Limited r (h e w).1
found_keeps r event_type [] ks h q e w l = cc
found_keeps r event_type ((k, g) ∷ handlers) (kg, ks) h q e w l =
    elim (Bool-cases (str_eq k event_type)) [
      | inl y ↦ subst (λ (x : Handler). Limited r (x e w).1) (same g h (rw y at q)) (kg e w l)
      | inr n ↦ found_keeps r event_type handlers ks h (rw n at q) e w l
    ]
  where
    same : (g h : Handler) → some g ≡ some h → g ≡ h
    same g h q = cc

continue-Limited :
    {r : Relay} {A B : Type 0} (o : Result A) (f : A → Action B) (w : World)
    → ((a : A) (v : World) → Limited r v → Limited r (f a v).1)
    → Limited r w
    → Limited r (continue o f w).1
continue-Limited (ok a) f w k l = k a w l
continue-Limited (err e) f w k l = l

module _ (r : Relay) (keep : HandlersKeep r r.handlers) where
  handled-Limited :
      (row : OutboxRow) (w : World) (o : Option Handler)
      → find_handler row.event_type r.handlers ≡ o
      → Limited r w
      → Limited r (handled r (event_of row) row.attempt_count o w).1
  handled-Limited row w none q l = l
  handled-Limited row w (some h) q l =
      let out = h (event_of row) w in
      Limited-Frame r out.1 (settle r row.id row.attempt_count out.0 out.1).1
        ((Keeps-settle r row.id row.attempt_count out.0).at out.1)
        (found_keeps r row.event_type r.handlers keep h q (event_of row) w l)

  dispatch_all-Limited :
      (rows : List OutboxRow) (w : World) → Limited r w → Limited r (dispatch_all r rows w).1
  unfolding dispatch_all dispatch pure ◌>>=◌
  dispatch_all-Limited [] w l = l
  dispatch_all-Limited (row ∷ rows) w l =
      continue-Limited (dispatch r (event_of row) row.attempt_count w).0 _
        (dispatch r (event_of row) row.attempt_count w).1
        (λ us v lv.
          continue-Limited (dispatch_all r rows v).0 _ (dispatch_all r rows v).1 (λ vs u lu. lu)
            (dispatch_all-Limited rows v lv))
        (handled-Limited row w (find_handler row.event_type r.handlers) refl l)

  commit-Limited :
      (us : List RowUpdate) (batch : List OutboxRow)
      → All (Backed r batch) us
      → (s : Result (Unit {0}) × World) → Limited r s.1
      → Limited r (commit_updates us s).1
  unfolding commit_updates
  commit-Limited us batch b (ok _, w) l = record {
    bounded = write_all-HasAttempts r batch us b w.committed.outbox_events l.bounded;
    others = l.others;
  }
  commit-Limited us batch b (err e, w) l = l

  deliver-Limited :
      (rows : List OutboxRow) (w : World) → Limited r w → Limited r (deliver_batch r rows w).1
  unfolding deliver_batch ◌>>=◌
  deliver-Limited rows w l =
      let (us, e, backed) = dispatch_all_backed r rows w in
      let w' = (dispatch_all r rows w).1 in
      rw e (
        commit-Limited us rows backed (statement w') (
          Limited-Frame r w' (statement w').1 (Frame-statement w') (dispatch_all-Limited rows w l)))

  selected-Limited :
      (o : Result (List OutboxRow) × World) → Limited r o.1 → Limited r (selected r o).1
  unfolding selected give_up
  selected-Limited (ok rows, w) l = deliver-Limited rows w l
  selected-Limited (err e, w) l = Limited-Frame r w (statement w).1 (Frame-statement w) l

  begun-Limited : (o : Result (Unit {0}) × World) → Limited r o.1 → Limited r (batch_begun r o).1
  unfolding batch_begun
  begun-Limited (ok _, w) l =
      selected-Limited (select_batch r w)
        (Limited-Frame r w (select_batch r w).1 ((Keeps-select_batch r).at w) l)
  begun-Limited (err e, w) l = l

  interfere-Limited : (w : World) → Limited r w → Limited r (interfere w)
  unfolding interfere
  interfere-Limited w l = record {
    bounded = first w.others l.others;
    others = rest w.others l.others;
  }
    where
      first :
          (os : List (Db → Db))
          → All (λ (o : Db → Db). (db : Db) → Bounded r db → Bounded r (o db)) os
          → Bounded r (apply_first os w.committed)
      first [] a = l.bounded
      first (o ∷ os) a = a.0 w.committed l.bounded

      rest :
          (os : List (Db → Db))
          → All (λ (o : Db → Db). (db : Db) → Bounded r db → Bounded r (o db)) os
          → All (λ (o : Db → Db). (db : Db) → Bounded r db → Bounded r (o db)) (rest_of os)
      rest [] a = tt
      rest (o ∷ os) a = a.1

  batch-Limited : (w : World) → Limited r w → Limited r (process_batch r w).1
  unfolding process_batch
  batch-Limited w l =
      let w' = interfere w in
      begun-Limited (statement w')
        (Limited-Frame r w' (statement w').1 (Frame-statement w') (interfere-Limited w l))

  -- However many batches the relay works off, and whichever statements fail, no PENDING row is ever
  -- left with as many attempts as the limit, provided that the handlers and what others commit leave
  -- none: an event is tried as often as the limit says and then FAILED.
  pub run-Limited : (polls : List (Unit {0})) (w : World) → Limited r w → Limited r (run polls r w)
  unfolding run
  run-Limited [] w l = l
  run-Limited (_ ∷ polls) w l = run-Limited polls (process_batch r w).1 (batch-Limited w l)
