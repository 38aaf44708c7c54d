-- ===== src/Sunabar/Session.antt =====
-- The state in which the client of internal/platform/sunabar/http_client.go runs: the client with its
-- sources of tokens (internal/platform/sunabar/auth.go), what it has sent, and what is outside the
-- repository as functions: the clock, the bank, the token endpoint, and the packages of dates and URLs.
pub mod Inversion
use go_sunabar_payments.Base.{ℕ, ◌+◌, List, [], ◌∷◌, ◌++◌, Option, none, some, String}
use go_sunabar_payments.Base.Int.{ℤ}
use go_sunabar_payments.Platform.Errors.{Error, Result, ok, err}
use go_sunabar_payments.Sunabar.Json.{Tree}

-- A request to the bank: the base URL that the path replaces, the query by key, and the headers
-- `x-access-token` and `x-idempotency-key`.
pub record HttpRequest : Type 0 where
  pub method : String
  pub base_url : String
  pub path : String
  pub query : List (String × String)
  pub token : String
  pub idempotency_key : Option String
  pub body : Option Tree

-- The form that is sent to the token endpoint.
pub record TokenRequest : Type 0 where
  pub token_url : String
  pub client_id : String
  pub client_secret : String
  pub scope : Option String

-- An answer: its body as a text, if it can be read, and as the JSON value that it is, if it is one.
pub record HttpResponse : Type 0 where
  pub status_code : ℕ
  pub body : Option String
  pub tree : Option Tree

-- The number of the call is given, since the same request may have another answer later.
pub record Network : Type 0 where
  pub clock : ℕ → ℕ
  pub respond : ℕ → HttpRequest → Result HttpResponse
  pub token_reply : ℕ → TokenRequest → Result HttpResponse
  pub parse_url : String → Option Error
  pub utc_date : ℕ → String
  pub jst_date : ℕ → String
  pub parse_rfc3339 : String → Option ℕ
  pub unix : ℤ → ℕ

-- `OAuth2Config`; a scope left out is an empty text.
pub record OAuth2Config : Type 0 where
  pub token_url : String
  pub client_id : String
  pub client_secret : String
  pub scope : String
  pub skew_seconds : ℤ

-- `OAuth2TokenSource`, each call of which runs under its mutex.
pub record OAuth2TokenSource : Type 0 where
  pub cfg : OAuth2Config
  pub token : String
  pub expires_at : ℕ

-- `AuthSource`, by its implementations.
pub data AuthSource : Type 0 where
  static_token_source : String → AuthSource
  oauth2_token_source : OAuth2TokenSource → AuthSource

-- `HTTPClient`.
pub record HttpClient : Type 0 where
  pub base_url : String
  pub personal_auth : AuthSource
  pub corporate_auth : Option AuthSource

pub record Session : Type 0 where
  pub network : Network
  pub ticks : ℕ
  pub calls : ℕ
  pub client : HttpClient
  -- what has been sent, oldest first
  pub sent : List HttpRequest
  pub token_requests : List TokenRequest

abbrev pub Call {ℓ} : Type ℓ → Type ℓ
Call A = Session → Result A × Session

module _ {ℓ} {A : Type ℓ} where
  unfoldable pub pure : A → Call A
  pure a s = (ok a, s)

  unfoldable pub raise : Error → Call A
  raise e s = (err e, s)

  unfoldable pub lift : Result A → Call A
  lift r s = (r, s)

  abbrev pub rewrap : (Error → Error) → Result A → Result A
  rewrap f (ok a) = ok a
  rewrap f (err e) = err (f e)

  unfoldable pub on_error : (Error → Error) → Call A → Call A
  on_error f m s = let (r, s') = m s in (rewrap f r, s')

module _ {ℓ κ} {A : Type ℓ} {B : Type κ} where
  abbrev pub continue : Result A → (A → Call B) → Call B
  continue (ok a) f s = f a s
  continue (err e) f s = (err e, s)

  -- Opening this opens `pure`, `raise` and `lift` too.
  infixl 5 ◌>>=◌
  unfoldable pub ◌>>=◌ : Call A → (A → Call B) → Call B
  unfolding pure raise lift
  ◌>>=◌ m f s = let (r, s') = m s in continue r f s'

infixl 5 ◌>>◌
abbrev pub ◌>>◌ {ℓ κ} : {A : Type ℓ} {B : Type κ} → Call A → Call B → Call B
m >> k = m >>= λ _. k

-- `time.Now()`.
unfoldable pub time_now : Call ℕ
time_now s = (ok (s.network.clock s.ticks), record s { ticks = s.ticks + 1 })

-- `httpClient.Do(req)`, to the bank and to the token endpoint.
unfoldable pub http_do : HttpRequest → Call HttpResponse
http_do req s =
    (s.network.respond s.calls req, record s { calls = s.calls + 1; sent = s.sent ++ req ∷ [] })

unfoldable pub request_token : TokenRequest → Call HttpResponse
request_token req s = (
  s.network.token_reply s.calls req,
  record s { calls = s.calls + 1; token_requests = s.token_requests ++ req ∷ [] },
)
