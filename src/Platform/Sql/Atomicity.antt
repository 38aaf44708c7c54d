-- ===== src/Platform/Sql/Atomicity.antt =====
-- A transaction of internal/platform/transaction/manager_sql.go is all or nothing.
use go_sunabar_payments.Base.{◌≡◌, refl, ◌∙◌, [], arith}
use go_sunabar_payments.Platform.Errors.{Error, Result, ok, err}
use go_sunabar_payments.Platform.World.{Db, World, Action}
use go_sunabar_payments.Platform.Sql.{
  statement, interfered, interfere, rolled_back, committed_with, finished, begun, do_tx,
}
use go_sunabar_payments.Platform.Sql.Keeps.{Frame, Keeps, Keeps-statement, working-statement}

-- The world in which the body of the next transaction starts.
unfoldable pub entered : World → World
entered w = let w' = (statement (interfere w)).1 in record w' { working = w'.committed }

committed-interfere : (w : World) → (interfere w).committed ≡ interfered w
unfolding interfere
committed-interfere w = refl

-- How a transaction may end whose body gives `out` from the tables `db`: with an error, and then
-- the database is `db`; or with the value of the body, and then it is what the body has written.
abbrev pub AllOrNothing {ℓ} : {A : Type ℓ} → Db → Result A × World → Result A × World → Type ℓ
AllOrNothing db out (err e, w') = Unit × (w'.committed ≡ db)
AllOrNothing db out (ok a, w') = (out.0 ≡ ok a) × (w'.committed ≡ out.1.working)

module _ {ℓ} {A : Type ℓ} (db : Db) where
  rolled_back_lem :
      (out : Result A × World) (e : Error) (s : Result (Unit {0}) × World)
      → s.1.committed ≡ db
      → AllOrNothing db out (rolled_back e s)
  unfolding rolled_back
  rolled_back_lem out e (ok _, w) h = (tt, h)
  rolled_back_lem out e (err rb, w) h = (tt, h)

  committed_with_lem :
      (a : A) (w : World) (s : Result (Unit {0}) × World)
      → s.1.committed ≡ db
      → s.1.working ≡ w.working
      → AllOrNothing db (ok a, w) (committed_with a s)
  unfolding committed_with
  committed_with_lem a w (ok _, w') h k = (refl, k)
  committed_with_lem a w (err e, w') h k = (tt, h)

  finished_lem :
      (out : Result A × World) → out.1.committed ≡ db → AllOrNothing db out (finished out)
  unfolding finished
  finished_lem (ok a, w) h =
      committed_with_lem a w (statement w) ((Keeps-statement.at w).committed ∙ h)
        (working-statement w)
  finished_lem (err e, w) h =
      rolled_back_lem (err e, w) e (statement w) ((Keeps-statement.at w).committed ∙ h)

  begun_lem :
      (fn : Action A)
      → Keeps fn
      → (s : Result (Unit {0}) × World) → s.1.committed ≡ db
      → AllOrNothing db (fn (record s.1 { working = s.1.committed })) (begun fn s)
  unfolding begun
  begun_lem fn k (ok _, w) h =
      finished_lem (fn (record w { working = w.committed }))
        ((k.at (record w { working = w.committed })).committed ∙ h)
  begun_lem fn k (err e, w) h = (tt, h)

-- A transaction whose body writes only through it is all or nothing, whichever statements fail,
-- the beginning, the commit and the rollback included.
pub do_tx_atomic {ℓ} :
    {A : Type ℓ} (fn : Action A) (w : World)
    → Keeps fn
    → AllOrNothing (interfered w) (fn (entered w)) (do_tx fn w)
unfolding do_tx entered
do_tx_atomic fn w k =
    begun_lem (interfered w) fn k (statement (interfere w))
      ((Keeps-statement.at (interfere w)).committed ∙ committed-interfere w)

-- What a transaction has in common with the world that it began in.
pub record Quiet (w w' : World) : Type 0 where
  pub outside : w'.outside ≡ w.outside
  pub calls : w'.calls ≡ w.calls
  pub breaker : w'.breaker ≡ w.breaker
  pub requests : w'.requests ≡ w.requests
  pub notices : w'.notices ≡ w.notices
  pub issues : w'.issues ≡ w.issues

Quiet-trans : {w w' w'' : World} → Quiet w w' → Quiet w' w'' → Quiet w w''
Quiet-trans f g = ground arith

Quiet-Frame : {w w' : World} → Frame w w' → Quiet w w'
Quiet-Frame f = ground arith

Quiet-rolled_back {ℓ} :
    (A : Type ℓ) (e : Error) (s : Result (Unit {0}) × World) → Quiet s.1 (rolled_back {A = A} e s).1
unfolding rolled_back
Quiet-rolled_back A e (ok _, w) = ground arith
Quiet-rolled_back A e (err rb, w) = ground arith

module _ {ℓ} {A : Type ℓ} where
  Quiet-committed_with : (a : A) (s : Result (Unit {0}) × World) → Quiet s.1 (committed_with a s).1
  unfolding committed_with
  Quiet-committed_with a (ok _, w) = ground arith
  Quiet-committed_with a (err e, w) = ground arith

  Quiet-finished : (out : Result A × World) → Quiet out.1 (finished out).1
  unfolding finished
  Quiet-finished (ok a, w) =
      Quiet-trans (Quiet-Frame (Keeps-statement.at w)) (Quiet-committed_with a (statement w))
  Quiet-finished (err e, w) =
      Quiet-trans (Quiet-Frame (Keeps-statement.at w)) (Quiet-rolled_back A e (statement w))

  Quiet-begun :
      (fn : Action A) → Keeps fn → (s : Result (Unit {0}) × World) → Quiet s.1 (begun fn s).1
  unfolding begun
  Quiet-begun fn k (ok _, w) =
      let w' : World = record w { working = w.committed } in
      Quiet-trans (Quiet-Frame (enter w))
        (Quiet-trans (Quiet-Frame (k.at w')) (Quiet-finished (fn w')))
    where
      enter : (w : World) → Frame w (record w { working = w.committed })
      enter w = ground arith
  Quiet-begun fn k (err e, w) = ground arith

Quiet-interfere : (w : World) → Quiet w (interfere w)
unfolding interfere
Quiet-interfere w = ground arith

-- A transaction touches neither the breaker nor what is outside, if its body does not.
pub do_tx-Quiet {ℓ} : {A : Type ℓ} (fn : Action A) (w : World) → Keeps fn → Quiet w (do_tx fn w).1
unfolding do_tx
do_tx-Quiet fn w k = Quiet-trans (Quiet-interfere w) (
    Quiet-trans (Quiet-Frame (Keeps-statement.at (interfere w)))
      (Quiet-begun fn k (statement (interfere w))))

-- A body starts from the tables as others have left them.
pub entered-interfered : (w : World) → (entered w).working ≡ interfered w
unfolding entered interfere
entered-interfered w = (Keeps-statement.at (interfere w)).committed

-- With nothing committed by others in between, a body starts from the committed tables.
pub working-entered : (w : World) → w.others ≡ [] → (entered w).working ≡ w.committed
unfolding entered interfere
working-entered w h = (Keeps-statement.at (interfere w)).committed ∙ rw h

module _ {ℓ} {A : Type ℓ} where
  ended_err :
      (db : Db) (out r : Result A × World) {e : Error}
      → AllOrNothing db out r
      → r.0 ≡ err e
      → r.1.committed ≡ db
  ended_err db out (ok a, w) h p = cc
  ended_err db out (err e, w) h p = h.1

  ended_ok :
      (db : Db) (out r : Result A × World) {a : A}
      → AllOrNothing db out r
      → r.0 ≡ ok a
      → (out.0 ≡ ok a) × (r.1.committed ≡ out.1.working)
  ended_ok db out (ok a, w) h p = (h.0 ∙ p, h.1)
  ended_ok db out (err e, w) h p = cc

  -- A transaction that fails leaves the tables as others have left them.
  pub do_tx_err :
      (fn : Action A) (w : World) {e : Error}
      → Keeps fn
      → (do_tx fn w).0 ≡ err e
      → (do_tx fn w).1.committed ≡ interfered w
  do_tx_err fn w k h =
      ended_err (interfered w) (fn (entered w)) (do_tx fn w) (do_tx_atomic fn w k) h

  -- A transaction that succeeds commits what its body has written.
  pub do_tx_ok :
      (fn : Action A) (w : World) {a : A}
      → Keeps fn
      → (do_tx fn w).0 ≡ ok a
      → ((fn (entered w)).0 ≡ ok a) × ((do_tx fn w).1.committed ≡ (fn (entered w)).1.working)
  do_tx_ok fn w k h = ended_ok (interfered w) (fn (entered w)) (do_tx fn w) (do_tx_atomic fn w k) h

-- A body has the world outside that its caller has.
pub outside-entered : (w : World) → (entered w).outside ≡ w.outside
unfolding entered interfere
outside-entered w = (Keeps-statement.at (interfere w)).outside
