-- ===== src/Platform/Sql/Never.antt =====
-- Actions that return no error of a sentinel, when the driver (internal/platform/transaction) gives none:
-- a rule for each way to build an action.
use go_sunabar_payments.Base.{
  ℕ, ◌≡◌, false, Bool, true, List, [], ◌∷◌, Option, none, some, String, All, if◌then◌else◌,
}
use go_sunabar_payments.Platform.Errors.{
  Sentinel, Error, Result, ok, err, wrapped, annotated, errors_is, tx_done,
}
use go_sunabar_payments.Platform.World.{
  Db, World, Action, continue, pure, ◌>>=◌, rewrap, on_error, now, new_id,
}
use go_sunabar_payments.Platform.Sql.{
  statement_in, statement, stored, exec_tx, do_tx, begun, finished, committed_with, rolled_back,
  interfere,
}

module _ (t : Sentinel) where
  abbrev pub Avoids : Error → Type 0
  Avoids e = errors_is e t ≡ false

  abbrev pub AvoidsFault : Option Error → Type 0
  AvoidsFault none = Unit
  AvoidsFault (some e) = Avoids e

  abbrev pub AvoidsResult {ℓ} : {A : Type ℓ} → Result A → Type 0
  AvoidsResult (ok a) = Unit
  AvoidsResult (err e) = Avoids e

  -- The coming errors of the driver are others.
  abbrev pub Clean : World → Type 0
  Clean w = All AvoidsFault w.faults

  abbrev pub Ends {ℓ} : {A : Type ℓ} → Result A × World → Type 0
  Ends (r, w) = AvoidsResult r × Clean w

  pub record Never {ℓ} {A : Type ℓ} (m : Action A) : Type ℓ where
    pub at : (w : World) → Clean w → Ends (m w)

  module _ {ℓ} {A : Type ℓ} where
    pub Never-pure : (a : A) → Never (pure a)
    unfolding pure
    Never-pure a = record { at = λ w c. (tt, c) }

    pub Never-wrapped :
        (context : String) (m : Action A) → Never m → Never (on_error (wrapped context) m)
    unfolding on_error
    Never-wrapped context m n = record { at = λ w c. go (m w) (n.at w c) }
      where
        go : (o : Result A × World) → Ends o → Ends (rewrap (wrapped context) o.0, o.1)
        go (ok a, w) e = e
        go (err x, w) e = e

  module _ {ℓ κ} {A : Type ℓ} {B : Type κ} where
    pub Never-bind :
        (m : Action A) (f : A → Action B) → Never m → ((a : A) → Never (f a)) → Never (m >>= f)
    unfolding ◌>>=◌
    Never-bind m f n k = record { at = λ w c. go (m w) (n.at w c) }
      where
        go : (o : Result A × World) → Ends o → Ends (continue o.0 f o.1)
        go (ok a, w) e = (k a).at w e.1
        go (err x, w) e = e

  pub Never-now : Never now
  unfolding now
  Never-now = record { at = λ w c. (tt, c) }

  pub Never-new_id : Never new_id
  unfolding new_id
  Never-new_id = record { at = λ w c. (tt, c) }

  pub Never-statement : Never statement
  unfolding statement
  Never-statement = record { at = λ w c. go w w.faults c c }
    where
      go :
          (w : World) (faults : List (Option Error))
          → Clean w
          → All AvoidsFault faults
          → Ends (statement_in faults w)
      go w [] h c = (tt, h)
      go w (none ∷ rest) h c = (tt, c.1)
      go w (some e ∷ rest) h c = c

  pub Never-exec_tx :
      (run : Db → Result (ℕ × Db)) → ((db : Db) → AvoidsResult (run db)) → Never (exec_tx run)
  unfolding exec_tx
  Never-exec_tx run k =
      Never-bind _ _ Never-statement
        (λ u. record { at = λ w c. go (run w.working) w (k w.working) c })
    where
      go : (r : Result (ℕ × Db)) (w : World) → AvoidsResult r → Clean w → Ends (stored r w)
      go (ok (n, db)) w a c = (tt, c)
      go (err e) w a c = (a, c)

  rolled_back-Ends {ℓ} :
      (A : Type ℓ) (e : Error) (o : Result (Unit {0}) × World)
      → Avoids e
      → Ends o
      → Ends (rolled_back {A = A} e o)
  unfolding rolled_back
  rolled_back-Ends A e (ok _, w) a h = (a, h.1)
  rolled_back-Ends A e (err rb, w) a h = (go (errors_is rb tx_done), h.1)
    where
      go : (b : Bool) → Avoids (if b then e else annotated e rb)
      go true = a
      go false = a

  module _ {ℓ} {A : Type ℓ} where
    committed-Ends : (a : A) (o : Result (Unit {0}) × World) → Ends o → Ends (committed_with a o)
    unfolding committed_with
    committed-Ends a (ok _, w) h = (tt, h.1)
    committed-Ends a (err e, w) h = h

    finished-Ends : (o : Result A × World) → Ends o → Ends (finished o)
    unfolding finished
    finished-Ends (ok a, w) h = committed-Ends a (statement w) (Never-statement.at w h.1)
    finished-Ends (err e, w) h = rolled_back-Ends A e (statement w) h.0 (Never-statement.at w h.1)

    begun-Ends :
        (fn : Action A) (o : Result (Unit {0}) × World) → Never fn → Ends o → Ends (begun fn o)
    unfolding begun
    begun-Ends fn (ok _, w) n h =
        finished-Ends (fn (record w { working = w.committed }))
          (n.at (record w { working = w.committed }) h.1)
    begun-Ends fn (err e, w) n h = h

    pub Never-do_tx : (fn : Action A) → Never fn → Never (do_tx fn)
    unfolding do_tx interfere
    Never-do_tx fn n = record {
      at = λ w c. begun-Ends fn (statement (interfere w)) n (Never-statement.at (interfere w) c);
    }
