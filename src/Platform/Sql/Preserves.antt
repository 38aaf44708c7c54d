-- ===== src/Platform/Sql/Preserves.antt =====
-- Invariants of the committed tables, kept by actions and by the transactions of
-- internal/platform/transaction/manager_sql.go: a rule for each way to build an action.
use mathlib.Core.Path.{subst}
use go_sunabar_payments.Base.{ℕ, ◌≡◌, sym, Bool, true, false, List, [], ◌∷◌, All, if◌then◌else◌}
use go_sunabar_payments.Platform.Errors.{Error, Result, ok, err}
use go_sunabar_payments.Platform.World.{
  Db, World, Action, continue, pure, raise, lift, ◌>>=◌, on_error, now, new_id,
}
use go_sunabar_payments.Platform.Sql.{
  statement, stored, exec_tx, auto_committed, exec_db, rows_affected, interfere, apply_first,
  rest_of, rolled_back, committed_with, finished, begun, do_tx,
}
use go_sunabar_payments.Platform.Sql.Keeps.{
  Frame-statement, Keeps, Keeps-statement, working-statement,
}

-- The committed tables satisfy `I`, and what others commit leaves it so.
pub record Sound (I : Db → Type 0) (w : World) : Type 0 where
  pub committed : I w.committed
  pub others : All (λ (o : Db → Db). (db : Db) → I db → I (o db)) w.others

pub record Preserves {ℓ} (I : Db → Type 0) {A : Type ℓ} (m : Action A) : Type ℓ where
  pub at : (w : World) → Sound I w → Sound I (m w).1

-- The same of the tables that an open transaction sees.
pub record Writes {ℓ} (I : Db → Type 0) {A : Type ℓ} (m : Action A) : Type ℓ where
  pub at : (w : World) → I w.working → I (m w).1.working

-- The invariant of the tables that a statement gives, if it gives any.
abbrev pub Gives : (I : Db → Type 0) → Result (ℕ × Db) → Type 0
Gives I (ok (n, db)) = I db
Gives I (err e) = Unit

module _ {I : Db → Type 0} where
  pub Sound-same :
      (w w' : World) → w'.committed ≡ w.committed → w'.others ≡ w.others → Sound I w → Sound I w'
  Sound-same w w' p q s = record {
    committed = subst I (sym p) s.committed;
    others =
        subst (λ (x : List (Db → Db)). All (λ (o : Db → Db). (db : Db) → I db → I (o db)) x) (sym q)
          s.others;
  }

  pub Preserves-Keeps : {A : Type 0} (m : Action A) → Keeps m → Preserves I m
  Preserves-Keeps m k = record {
    at = λ w s. Sound-same w (m w).1 (k.at w).committed (k.at w).others s;
  }

  module _ {A : Type 0} where
    pub Preserves-on_error :
        (f : Error → Error) (m : Action A) → Preserves I m → Preserves I (on_error f m)
    unfolding on_error
    Preserves-on_error f m p = record { at = p.at }

    pub Preserves-if :
        (b : Bool) (m n : Action A)
        → Preserves I m
        → Preserves I n
        → Preserves I (if b then m else n)
    Preserves-if true m n p q = p
    Preserves-if false m n p q = q

    pub Preserves-pure : (a : A) → Preserves I (pure a)
    unfolding pure
    Preserves-pure a = record { at = λ w s. s }

    pub Preserves-raise : (e : Error) → Preserves I (raise {A = A} e)
    unfolding raise
    Preserves-raise e = record { at = λ w s. s }

    pub Preserves-lift : (r : Result A) → Preserves I (lift r)
    unfolding lift
    Preserves-lift r = record { at = λ w s. s }

    pub Writes-pure : (a : A) → Writes I (pure a)
    unfolding pure
    Writes-pure a = record { at = λ w i. i }

    pub Writes-raise : (e : Error) → Writes I (raise {A = A} e)
    unfolding raise
    Writes-raise e = record { at = λ w i. i }

    pub Writes-lift : (r : Result A) → Writes I (lift r)
    unfolding lift
    Writes-lift r = record { at = λ w i. i }

    pub Writes-on_error : (f : Error → Error) (m : Action A) → Writes I m → Writes I (on_error f m)
    unfolding on_error
    Writes-on_error f m p = record { at = p.at }

    pub Writes-if :
        (b : Bool) (m n : Action A) → Writes I m → Writes I n → Writes I (if b then m else n)
    Writes-if true m n p q = p
    Writes-if false m n p q = q

  module _ {A B : Type 0} where
    continue-Sound :
        (r : Result A) (f : A → Action B) (w : World)
        → ((a : A) → Preserves I (f a))
        → Sound I w
        → Sound I (continue r f w).1
    continue-Sound (ok a) f w k s = (k a).at w s
    continue-Sound (err e) f w k s = s

    pub Preserves-bind :
        (m : Action A) (f : A → Action B)
        → Preserves I m
        → ((a : A) → Preserves I (f a))
        → Preserves I (m >>= f)
    unfolding ◌>>=◌
    Preserves-bind m f p k = record { at = λ w s. continue-Sound (m w).0 f (m w).1 k (p.at w s) }

    continue-working :
        (r : Result A) (f : A → Action B) (w : World)
        → ((a : A) → Writes I (f a))
        → I w.working
        → I (continue r f w).1.working
    continue-working (ok a) f w k i = (k a).at w i
    continue-working (err e) f w k i = i

    pub Writes-bind :
        (m : Action A) (f : A → Action B)
        → Writes I m
        → ((a : A) → Writes I (f a))
        → Writes I (m >>= f)
    unfolding ◌>>=◌
    Writes-bind m f p k = record { at = λ w i. continue-working (m w).0 f (m w).1 k (p.at w i) }

  pub Preserves-now : Preserves I now
  unfolding now
  Preserves-now = record { at = λ w s. record { committed = s.committed; others = s.others } }

  pub Writes-now : Writes I now
  unfolding now
  Writes-now = record { at = λ w i. i }

  pub Writes-new_id : Writes I new_id
  unfolding new_id
  Writes-new_id = record { at = λ w i. i }

  pub Writes-statement : Writes I statement
  Writes-statement = record { at = λ w i. subst I (sym (working-statement w)) i }

  pub Writes-rows_affected : (n : ℕ) → Writes I (rows_affected n)
  unfolding rows_affected
  Writes-rows_affected n = Writes-bind _ _ Writes-statement (λ u. Writes-pure n)

  pub Writes-exec_tx :
      (run : Db → Result (ℕ × Db)) → ((db : Db) → I db → Gives I (run db)) → Writes I (exec_tx run)
  unfolding exec_tx
  Writes-exec_tx run k =
      Writes-bind _ _ Writes-statement
        (λ u. record { at = λ w i. go (run w.working) w i (k w.working i) })
    where
      go : (r : Result (ℕ × Db)) (w : World) → I w.working → Gives I r → I (stored r w).1.working
      go (ok (n, db)) w i g = g
      go (err e) w i g = i

  pub Preserves-exec_db :
      (run : Db → Result (ℕ × Db))
      → ((db : Db) → I db → Gives I (run db))
      → Preserves I (exec_db run)
  unfolding exec_db
  Preserves-exec_db run k =
      Preserves-bind _ _ (Preserves-Keeps statement Keeps-statement)
        (λ u. record { at = λ w s. go (run w.committed) w s (k w.committed s.committed) })
    where
      go :
          (r : Result (ℕ × Db)) (w : World) → Sound I w → Gives I r → Sound I (auto_committed r w).1
      go (ok (n, db)) w s g = record { committed = g; others = s.others }
      go (err e) w s g = s

  statement-Sound : (w : World) → Sound I w → Sound I (statement w).1
  statement-Sound w s =
      Sound-same w (statement w).1 (Frame-statement w).committed (Frame-statement w).others s

  interfere-Sound : (w : World) → Sound I w → Sound I (interfere w)
  unfolding interfere
  interfere-Sound w s = record {
    committed = first w.others s.others;
    others = rest w.others s.others;
  }
    where
      first :
          (os : List (Db → Db))
          → All (λ (o : Db → Db). (db : Db) → I db → I (o db)) os
          → I (apply_first os w.committed)
      first [] a = s.committed
      first (o ∷ os) a = a.0 w.committed s.committed

      rest :
          (os : List (Db → Db))
          → All (λ (o : Db → Db). (db : Db) → I db → I (o db)) os
          → All (λ (o : Db → Db). (db : Db) → I db → I (o db)) (rest_of os)
      rest [] a = tt
      rest (o ∷ os) a = a.1

  rolled_back-Sound :
      (A : Type 0) (e : Error) (o : Result (Unit {0}) × World)
      → Sound I o.1
      → Sound I (rolled_back {A = A} e o).1
  unfolding rolled_back
  rolled_back-Sound A e (ok _, w) s = s
  rolled_back-Sound A e (err rb, w) s = s

  module _ {A : Type 0} where
    committed-Sound :
        (a : A) (o : Result (Unit {0}) × World)
        → Sound I o.1
        → I o.1.working
        → Sound I (committed_with a o).1
    unfolding committed_with
    committed-Sound a (ok _, w) s i = record { committed = i; others = s.others }
    committed-Sound a (err e, w) s i = s

    finished-Sound : (o : Result A × World) → Sound I o.1 → I o.1.working → Sound I (finished o).1
    unfolding finished
    finished-Sound (ok a, w) s i =
        committed-Sound a (statement w) (statement-Sound w s) (Writes-statement.at w i)
    finished-Sound (err e, w) s i = rolled_back-Sound A e (statement w) (statement-Sound w s)

    begun-Sound :
        (fn : Action A) (o : Result (Unit {0}) × World)
        → Keeps fn
        → Writes I fn
        → Sound I o.1
        → Sound I (begun fn o).1
    unfolding begun
    begun-Sound fn (ok _, w) k p s =
        let w1 : World = record w { working = w.committed } in
        finished-Sound (fn w1)
          (Sound-same w1 (fn w1).1 (k.at w1).committed (k.at w1).others
            (record { committed = s.committed; others = s.others }))
          (p.at w1 s.committed)
    begun-Sound fn (err e, w) k p s = s

    -- A transaction whose body writes only through it and keeps the invariant there keeps it.
    pub Preserves-do_tx : (fn : Action A) → Keeps fn → Writes I fn → Preserves I (do_tx fn)
    unfolding do_tx
    Preserves-do_tx fn k p = record {
      at = λ w s.
          begun-Sound fn (statement (interfere w)) k p
            (statement-Sound (interfere w) (interfere-Sound w s));
    }

pub ruleset preserves_rules = (
  Preserves-on_error, Preserves-if, Preserves-pure, Preserves-raise, Preserves-lift, Preserves-bind,
  Preserves-now, Preserves-do_tx,
)

pub ruleset writes_rules = (
  Writes-pure, Writes-raise, Writes-lift, Writes-on_error, Writes-if, Writes-bind, Writes-now,
  Writes-new_id, Writes-statement, Writes-rows_affected,
)
