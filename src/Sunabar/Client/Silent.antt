-- ===== src/Sunabar/Client/Silent.antt =====
-- Calls that send the bank nothing: the sources of tokens (internal/platform/sunabar/auth.go) among
-- them. A rule for each way to build a call.
use go_sunabar_payments.Base.{
  ◌≡◌, Bool, true, false, Option, none, some, String, arith, if◌then◌else◌,
}
use go_sunabar_payments.Platform.Errors.{Error, Result, ok, err}
use go_sunabar_payments.Sunabar.Session.{
  TokenRequest, Network, OAuth2TokenSource, AuthSource, static_token_source, oauth2_token_source,
  Session, Call, pure, raise, lift, continue, ◌>>=◌, on_error, time_now, request_token,
}
use go_sunabar_payments.Sunabar.Auth.{refuse, fetch, fetch_unless, refreshed, token}
use go_sunabar_payments.Sunabar.Client.{
  keep_personal, keep_corporate, token_from, corporate_token, authorize, has_prefix,
}

-- The requests sent, the base URL and what is outside are the same.
pub record Same (s s' : Session) : Type 0 where
  pub sent : s'.sent ≡ s.sent
  pub base_url : s'.client.base_url ≡ s.client.base_url
  pub network : s'.network ≡ s.network

pub Same-refl : (s : Session) → Same s s
Same-refl s = ground arith

pub Same-trans : {s s' s'' : Session} → Same s s' → Same s' s'' → Same s s''
Same-trans f g = ground arith

pub record Silent {ℓ} {A : Type ℓ} (m : Call A) : Type ℓ where
  pub at : (s : Session) → Same s (m s).1

module _ {ℓ} {A : Type ℓ} where
  pub Silent-pure : (a : A) → Silent (pure a)
  unfolding pure
  Silent-pure a = record { at = Same-refl }

  pub Silent-raise : (e : Error) → Silent (raise {A = A} e)
  unfolding raise
  Silent-raise e = record { at = Same-refl }

  pub Silent-lift : (r : Result A) → Silent (lift r)
  unfolding lift
  Silent-lift r = record { at = Same-refl }

  pub Silent-on_error : (f : Error → Error) (m : Call A) → Silent m → Silent (on_error f m)
  unfolding on_error
  Silent-on_error f m k = record { at = k.at }

  pub Silent-if : (b : Bool) (m n : Call A) → Silent m → Silent n → Silent (if b then m else n)
  Silent-if true m n km kn = km
  Silent-if false m n km kn = kn

module _ {ℓ κ} {A : Type ℓ} {B : Type κ} where
  Same-continue :
      (r : Result A) (f : A → Call B)
      → ((a : A) → Silent (f a))
      → (s : Session) → Same s (continue r f s).1
  Same-continue (ok a) f k s = (k a).at s
  Same-continue (err e) f k s = Same-refl s

  pub Silent-bind :
      (m : Call A) (f : A → Call B) → Silent m → ((a : A) → Silent (f a)) → Silent (m >>= f)
  unfolding ◌>>=◌
  Silent-bind m f km kf = record {
    at = λ s. let (r, s') = m s in Same-trans (km.at s) (Same-continue r f kf s');
  }

pub Silent-time_now : Silent time_now
unfolding time_now
Silent-time_now = record { at = λ s. ground arith }

Silent-request_token : (req : TokenRequest) → Silent (request_token req)
unfolding request_token
Silent-request_token req = record { at = λ s. ground arith }

Silent-keep_personal : (src : AuthSource) → Silent (keep_personal src)
Silent-keep_personal src = record { at = λ s. ground arith }

Silent-keep_corporate : (src : AuthSource) → Silent (keep_corporate src)
Silent-keep_corporate src = record { at = λ s. ground arith }

Silent-refuse : (o : Network → Option Error) → Silent {A = Unit {0}} (λ s. refuse (o s.network) s)
unfolding pure raise
Silent-refuse o = record { at = λ s. go (o s.network) s }
  where
    go : (r : Option Error) (s : Session) → Same s (refuse r s).1
    go none s = Same-refl s
    go (some e) s = Same-refl s

pub ruleset silent_rules = (
  Silent-pure, Silent-raise, Silent-lift, Silent-on_error, Silent-if, Silent-bind, Silent-time_now,
)

Silent-fetch : (src : OAuth2TokenSource) → Silent (fetch src)
unfolding fetch
Silent-fetch src =
    Silent-bind _ _
      (Silent-on_error _ _ (Silent-refuse (λ (n : Network). n.parse_url src.cfg.token_url)))
      (λ u. search (silent_rules, Silent-request_token) depth 10)

Silent-fetch_unless : (b : Bool) (src : OAuth2TokenSource) → Silent (fetch_unless b src)
Silent-fetch_unless true src = Silent-pure src
Silent-fetch_unless false src = Silent-fetch src

Silent-refreshed : (src : OAuth2TokenSource) → Silent (refreshed src)
unfolding refreshed
Silent-refreshed src = search (silent_rules, Silent-fetch, Silent-fetch_unless) depth 10

Silent-token : (src : AuthSource) → Silent (token src)
unfolding token
Silent-token (static_token_source t) = Silent-pure (t, static_token_source t)
Silent-token (oauth2_token_source src) = search (silent_rules, Silent-refreshed) depth 10

Silent-token_from :
    (src : AuthSource) (keep : AuthSource → Call (Unit {0}))
    → ((src' : AuthSource) → Silent (keep src'))
    → Silent (token_from src keep)
Silent-token_from src keep k =
    Silent-bind _ _ (Silent-on_error _ _ (Silent-token src))
      (λ (t, src'). Silent-bind _ _ (k src') (λ u. Silent-pure t))

Silent-corporate_token : (o : Option AuthSource) → Silent (corporate_token o)
Silent-corporate_token none = search silent_rules
Silent-corporate_token (some src) = Silent-token_from src keep_corporate Silent-keep_corporate

pub Silent-authorize : (path : String) → Silent (authorize path)
unfolding authorize
Silent-authorize path = record { at = λ s. go (has_prefix "/corporation/" path) s }
  where
    go :
        (b : Bool) (s : Session)
        → Same s
            (if b
              then corporate_token s.client.corporate_auth s
              else token_from s.client.personal_auth keep_personal s).1
    go true s = (Silent-corporate_token s.client.corporate_auth).at s
    go false s = (Silent-token_from s.client.personal_auth keep_personal Silent-keep_personal).at s
