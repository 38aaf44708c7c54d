-- ===== src/Platform/World/Inversion.antt =====
-- What it means for a composed action to return a value: each of its parts has.
use go_sunabar_payments.Base.{◌≡◌, refl}
use go_sunabar_payments.Platform.Errors.{Error, Result, ok, err}
use go_sunabar_payments.Platform.World.{World, Action, continue, ◌>>=◌, rewrap, on_error, lift}

module _ {ℓ} {A B : Type ℓ} where
  continue_ok :
      (r : Result A) (f : A → Action B) (w : World) {b : B}
      → (continue r f w).0 ≡ ok b
      → (a : A) × (r ≡ ok a) × ((f a w).0 ≡ ok b) × (continue r f w ≡ f a w)
  continue_ok (ok a) f w h = (a, refl, h, refl)
  continue_ok (err e) f w h = cc

  -- The value of the first part, with what is left to run.
  pub bind_ok :
      (m : Action A) (f : A → Action B) (w : World) {b : B}
      → ((m >>= f) w).0 ≡ ok b
      → (a : A) × ((m w).0 ≡ ok a) × ((f a (m w).1).0 ≡ ok b) × ((m >>= f) w ≡ f a (m w).1)
  unfolding ◌>>=◌
  bind_ok m f w h = continue_ok (m w).0 f (m w).1 h

module _ {ℓ} {A : Type ℓ} where
  rewrap_ok : (g : Error → Error) (r : Result A) {a : A} → rewrap g r ≡ ok a → r ≡ ok a
  rewrap_ok g (ok b) h = h
  rewrap_ok g (err e) h = cc

  pub on_error_ok :
      (g : Error → Error) (m : Action A) (w : World) {a : A}
      → (on_error g m w).0 ≡ ok a
      → ((m w).0 ≡ ok a) × ((on_error g m w).1 ≡ (m w).1)
  unfolding on_error
  on_error_ok g m w h = (rewrap_ok g (m w).0 h, refl)

  pub lift_state : (r : Result A) (w : World) → (lift r w).1 ≡ w
  unfolding lift
  lift_state r w = refl
