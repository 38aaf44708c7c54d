-- ===== src/Platform/Sql/Keeps.antt =====
-- Actions that write nothing outside an open transaction: a rule for each way to build an action.
use go_sunabar_payments.Base.{◌≡◌, Bool, true, false, ℕ, arith, if◌then◌else◌}
use go_sunabar_payments.Platform.Errors.{Error, Result, ok, err}
use go_sunabar_payments.Platform.World.{
  Db, World, Action, pure, raise, lift, continue, ◌>>=◌, on_error, now, new_id,
}
use go_sunabar_payments.Platform.Sql.{
  statement, stored, on_working, exec_tx, rows_affected, read_committed, query_db,
}

-- What `w'` has in common with `w`: all but the working tables and the outcomes still to come.
pub record Frame (w w' : World) : Type 0 where
  pub committed : w'.committed ≡ w.committed
  pub others : w'.others ≡ w.others
  pub outside : w'.outside ≡ w.outside
  pub calls : w'.calls ≡ w.calls
  pub breaker : w'.breaker ≡ w.breaker
  pub requests : w'.requests ≡ w.requests
  pub notices : w'.notices ≡ w.notices
  pub issues : w'.issues ≡ w.issues

pub Frame-refl : (w : World) → Frame w w
Frame-refl w = ground arith

pub Frame-trans : {w w' w'' : World} → Frame w w' → Frame w' w'' → Frame w w''
Frame-trans f g = ground arith

-- The action keeps these, whether it returns a value or an error.
pub record Keeps {ℓ} {A : Type ℓ} (m : Action A) : Type ℓ where
  pub at : (w : World) → Frame w (m w).1

module _ {ℓ} {A : Type ℓ} where
  pub Keeps-pure : (a : A) → Keeps (pure a)
  unfolding pure
  Keeps-pure a = record { at = Frame-refl }

  pub Keeps-raise : (e : Error) → Keeps (raise {A = A} e)
  unfolding raise
  Keeps-raise e = record { at = Frame-refl }

  pub Keeps-lift : (r : Result A) → Keeps (lift r)
  unfolding lift
  Keeps-lift r = record { at = Frame-refl }

  pub Keeps-on_error : (f : Error → Error) (m : Action A) → Keeps m → Keeps (on_error f m)
  unfolding on_error
  Keeps-on_error f m k = record { at = k.at }

  pub Keeps-read_committed : (read : Db → A) → Keeps (read_committed read)
  unfolding read_committed
  Keeps-read_committed read = record { at = Frame-refl }

  pub Keeps-if : (b : Bool) (m n : Action A) → Keeps m → Keeps n → Keeps (if b then m else n)
  Keeps-if true m n km kn = km
  Keeps-if false m n km kn = kn

module _ {ℓ κ} {A : Type ℓ} {B : Type κ} where
  Frame-continue :
      (r : Result A) (f : A → Action B)
      → ((a : A) → Keeps (f a))
      → (w : World) → Frame w (continue r f w).1
  Frame-continue (ok a) f k w = (k a).at w
  Frame-continue (err e) f k w = Frame-refl w

  pub Keeps-bind :
      (m : Action A) (f : A → Action B) → Keeps m → ((a : A) → Keeps (f a)) → Keeps (m >>= f)
  unfolding ◌>>=◌
  Keeps-bind m f km kf = record {
    at = λ w. let (r, w') = m w in Frame-trans (km.at w) (Frame-continue r f kf w');
  }

pub Keeps-now : Keeps now
unfolding now
Keeps-now = record { at = λ w. ground arith }

pub Keeps-new_id : Keeps new_id
unfolding new_id
Keeps-new_id = record { at = λ w. ground arith }

pub Frame-statement : (w : World) → Frame w (statement w).1
unfolding statement
Frame-statement w = ground arith

pub Keeps-statement : Keeps statement
Keeps-statement = record { at = Frame-statement }

Frame-stored : (r : Result (ℕ × Db)) (w : World) → Frame w (stored r w).1
unfolding stored
Frame-stored (ok (n, db)) w = ground arith
Frame-stored (err e) w = Frame-refl w

pub Keeps-on_working : (run : Db → Result (ℕ × Db)) → Keeps (on_working run)
unfolding on_working
Keeps-on_working run = record { at = λ w. Frame-stored (run w.working) w }

pub ruleset basic_rules = (
  Keeps-pure, Keeps-raise, Keeps-lift, Keeps-on_error, Keeps-read_committed, Keeps-if, Keeps-bind,
  Keeps-now, Keeps-new_id, Keeps-statement, Keeps-on_working,
)

pub Keeps-exec_tx : (run : Db → Result (ℕ × Db)) → Keeps (exec_tx run)
unfolding exec_tx
Keeps-exec_tx run = search basic_rules

pub Keeps-rows_affected : (n : ℕ) → Keeps (rows_affected n)
unfolding rows_affected
Keeps-rows_affected n = search basic_rules

pub Keeps-query_db {ℓ} : {A : Type ℓ} (read : Db → A) → Keeps (query_db read)
unfolding query_db
Keeps-query_db read = search basic_rules

-- A statement that is carried out or refused leaves the tables of the transaction alone.
pub working-statement : (w : World) → (statement w).1.working ≡ w.working
unfolding statement
working-statement w = ground arith

pub ruleset keeps_rules = (basic_rules, Keeps-exec_tx, Keeps-rows_affected, Keeps-query_db)
