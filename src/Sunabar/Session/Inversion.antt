-- ===== src/Sunabar/Session/Inversion.antt =====
-- What it means for a composed call of the client (internal/platform/sunabar) to return a value: each
-- of its parts has.
use go_sunabar_payments.Base.{◌≡◌, refl}
use go_sunabar_payments.Platform.Errors.{Error, Result, ok, err}
use go_sunabar_payments.Sunabar.Session.{Session, Call, continue, ◌>>=◌, rewrap, on_error}

module _ {ℓ} {A B : Type ℓ} where
  continue_ok :
      (r : Result A) (f : A → Call B) (s : Session) {b : B}
      → (continue r f s).0 ≡ ok b
      → (a : A) × (r ≡ ok a) × ((f a s).0 ≡ ok b) × (continue r f s ≡ f a s)
  continue_ok (ok a) f s h = (a, refl, h, refl)
  continue_ok (err e) f s h = cc

  -- The value of the first part, with what is left to run.
  pub bind_ok :
      (m : Call A) (f : A → Call B) (s : Session) {b : B}
      → ((m >>= f) s).0 ≡ ok b
      → (a : A) × ((m s).0 ≡ ok a) × ((f a (m s).1).0 ≡ ok b) × ((m >>= f) s ≡ f a (m s).1)
  unfolding ◌>>=◌
  bind_ok m f s h = continue_ok (m s).0 f (m s).1 h

module _ {ℓ} {A : Type ℓ} where
  rewrap_ok : (g : Error → Error) (r : Result A) {a : A} → rewrap g r ≡ ok a → r ≡ ok a
  rewrap_ok g (ok b) h = h
  rewrap_ok g (err e) h = cc

  pub on_error_ok :
      (g : Error → Error) (m : Call A) (s : Session) {a : A}
      → (on_error g m s).0 ≡ ok a
      → ((m s).0 ≡ ok a) × ((on_error g m s).1 ≡ (m s).1)
  unfolding on_error
  on_error_ok g m s h = (rewrap_ok g (m s).0 h, refl)
