-- ===== src/Sunabar/Client.antt =====
-- internal/platform/sunabar/http_client.go: `HTTPClient`, the request that all its methods share, and
-- the reading of instants. Building a request does not fail, since the base URL has been parsed and
-- the paths are constants, nor does writing a body, which is a struct of texts.
pub mod Endpoints
pub mod Orders
pub mod Silent
pub mod Asking
use Prim.Native.Char.{code}
use Prim.Native.String.{◌++◌ as str_append}
use go_sunabar_payments.Base.{
  ℕ, Bool, true, false, ◌&&◌, List, [], ◌∷◌, Option, none, some, String, str_eq, leb, ◌==◌,
  if◌then◌else◌,
}
use go_sunabar_payments.Base.Int.{ℤ}
use go_sunabar_payments.Platform.Errors.{
  Error, Result, ok, err, sentinel, api_error, external, wrapped, empty_base_url, nil_auth_source,
  no_corporate_auth,
}
use go_sunabar_payments.Sunabar.Json.{Tree, Members, decode_struct}
use go_sunabar_payments.Sunabar.Number.{codes, quoted, parse_int}
use go_sunabar_payments.Sunabar.Session.{
  HttpRequest, HttpResponse, Network, AuthSource, HttpClient, Session, Call, pure, raise, lift,
  ◌>>=◌, ◌>>◌, rewrap, on_error, http_do,
}
use go_sunabar_payments.Sunabar.Auth.{token, text_of}

abbrev with_url : String → AuthSource → Option AuthSource → Option Error → Result HttpClient
with_url url auth corporate none =
    ok (record { base_url = url; personal_auth = auth; corporate_auth = corporate })
with_url url auth corporate (some e) = err (wrapped "sunabar parse base url" e)

abbrev with_auth : Network → String → Option AuthSource → Option AuthSource → Result HttpClient
with_auth net url none corporate = err (sentinel nil_auth_source)
with_auth net url (some auth) corporate = with_url url auth corporate (net.parse_url url)

-- `NewHTTPClient`, of the base URL, `Auth` and `CorporateAuth`.
unfoldable pub new_http_client :
    Network → String → Option AuthSource → Option AuthSource → Result HttpClient
new_http_client net url auth corporate =
    if str_eq url "" then err (sentinel empty_base_url) else with_auth net url auth corporate

-- `strings.HasPrefix`, with the prefix first.
abbrev pub has_prefix : String → String → Bool
has_prefix String.[] s = true
has_prefix (String.◌∷◌ c p) String.[] = false
has_prefix (String.◌∷◌ c p) (String.◌∷◌ d s) = code c == code d && has_prefix p s

-- The source chosen keeps what it has fetched.
abbrev pub keep_personal : AuthSource → Call (Unit {0})
keep_personal src s = (ok tt, record s { client = record s.client { personal_auth = src } })

abbrev pub keep_corporate : AuthSource → Call (Unit {0})
keep_corporate src s = (ok tt, record s { client = record s.client { corporate_auth = some src } })

abbrev pub token_from : AuthSource → (AuthSource → Call (Unit {0})) → Call String
token_from src keep = do (t, src') ← on_error (wrapped "auth") (token src); keep src'; pure t

abbrev pub corporate_token : Option AuthSource → Call String
corporate_token none = raise (sentinel no_corporate_auth)
corporate_token (some src) = token_from src keep_corporate

-- The token for a path: that of the corporate API where the path is one of it.
unfoldable pub authorize : String → Call String
authorize path s =
    if has_prefix "/corporation/" path
    then corporate_token s.client.corporate_auth s
    else token_from s.client.personal_auth keep_personal s

-- What a caller of `do` gives; an empty key is no key.
pub record Ask : Type 0 where
  pub method : String
  pub path : String
  pub query : List (String × String)
  pub body : Option Tree
  pub idempotency_key : String

abbrev pub http_request : Ask → String → String → HttpRequest
http_request a url t = record {
  method = a.method;
  base_url = url;
  path = a.path;
  query = a.query;
  token = t;
  idempotency_key = if str_eq a.idempotency_key "" then none else some a.idempotency_key;
  body = a.body;
}

unfoldable pub send : Ask → String → Call HttpResponse
send a t s = http_do (http_request a s.client.base_url t) s

module _ {ℓ} {A : Type ℓ} (decode : Members → Result A) where
  abbrev decoded : Option Tree → Result A
  decoded none = err (external "invalid character in JSON")
  decoded (some t) = decode_struct decode t

  -- An answer of a status from 400 on is an error; a body that cannot be read is empty.
  unfoldable pub read_answer : HttpResponse → Result A
  read_answer res =
      if leb 400 res.status_code
      then err (api_error res.status_code (text_of res.body))
      else rewrap (wrapped "decode response") (decoded res.tree)

  -- `do`, with `out` a struct that is decoded.
  unfoldable pub do_request : Ask → Call A
  do_request a = do
    t ← authorize a.path
    res ← on_error (wrapped "http do") (send a t)
    lift (read_answer res)

abbrev pub unsupported : String → Result ℕ
unsupported s = err (external (str_append "unsupported time format: " (quoted s)))

abbrev from_seconds : Network → String → Result ℤ → Result ℕ
from_seconds net s (ok n) = ok (net.unix n)
from_seconds net s (err e) = unsupported s

abbrev from_rfc3339 : Network → String → Option ℕ → Result ℕ
from_rfc3339 net s (some at) = ok at
from_rfc3339 net s none = from_seconds net s (parse_int (codes s))

-- `parseSunabarTime`: RFC 3339, else a number of seconds.
unfoldable pub parse_sunabar_time : Network → String → Result ℕ
parse_sunabar_time net s = if str_eq s "" then ok 0 else from_rfc3339 net s (net.parse_rfc3339 s)
