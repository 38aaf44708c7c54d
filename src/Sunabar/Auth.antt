-- ===== src/Sunabar/Auth.antt =====
-- internal/platform/sunabar/auth.go: the sources of access tokens, a fixed one and one that fetches a
-- token and keeps it until it is about to run out.
pub mod Lifetime
use Prim.Native.String.{◌++◌ as str_append}
use go_sunabar_payments.Base.{
  ℕ, suc, ◌+◌, ◌-◌, ◌*◌, Bool, true, false, not, ◌&&◌, ◌||◌, Option, none, some, String, str_eq,
  ltb, if◌then◌else◌,
}
use go_sunabar_payments.Base.Int.{ℤ, pos, negsuc, pos_part, leb_ℤ, wrap64}
use go_sunabar_payments.Platform.Errors.{
  Error, Result, ok, err, sentinel, external, wrapped, decimal, empty_token, oauth2_empty_endpoint,
  oauth2_empty_credentials,
}
use go_sunabar_payments.Platform.Json as Json
use go_sunabar_payments.Transfer.Breaker.{second}
use go_sunabar_payments.Sunabar.Json.{
  Tree, Members, find_member, text_member, as_int, decode_struct,
}
use go_sunabar_payments.Sunabar.Session.{
  TokenRequest, HttpResponse, OAuth2Config, OAuth2TokenSource, AuthSource, static_token_source,
  oauth2_token_source, Session, Call, pure, raise, lift, ◌>>=◌, ◌>>◌, on_error, time_now,
  request_token,
}

-- `NewStaticTokenSource`.
unfoldable pub new_static_token_source : String → Result AuthSource
new_static_token_source token =
    if str_eq token "" then err (sentinel empty_token) else ok (static_token_source token)

abbrev with_default_skew : OAuth2Config → OAuth2Config
with_default_skew cfg =
    if leb_ℤ cfg.skew_seconds (pos 0) then record cfg { skew_seconds = pos 30 } else cfg

-- `NewOAuth2TokenSource`.
unfoldable pub new_oauth2_token_source : OAuth2Config → Result OAuth2TokenSource
new_oauth2_token_source cfg =
    if str_eq cfg.token_url ""
    then err (sentinel oauth2_empty_endpoint)
    else if str_eq cfg.client_id "" || str_eq cfg.client_secret ""
    then err (sentinel oauth2_empty_credentials)
    else ok (record { cfg = with_default_skew cfg; token = ""; expires_at = 0 })

-- The form, with the scope only where there is one.
abbrev pub form_of : OAuth2Config → TokenRequest
form_of cfg = record {
  token_url = cfg.token_url;
  client_id = cfg.client_id;
  client_secret = cfg.client_secret;
  scope = if str_eq cfg.scope "" then none else some cfg.scope;
}

-- What is read of the answer: `access_token` and `expires_in`.
abbrev pub TokenReply : Type 0
TokenReply = String × ℤ

abbrev pub decode_token : Members → Result TokenReply
decode_token ms =
    Json.◌>>=◌ (text_member "access_token" ms)
      (λ token. Json.◌>>=◌ (as_int (find_member "expires_in" ms)) (λ n. ok (token, n)))

abbrev decoded : Option Tree → Result TokenReply
decoded none = err (external "oauth2 decode: invalid JSON")
decoded (some t) = decode_struct decode_token t

abbrev pub text_of : Option String → String
text_of none = ""
text_of (some s) = s

-- What an answer of the endpoint gives.
unfoldable pub read_token : HttpResponse → Result TokenReply
read_token res =
    if ltb res.status_code 400
    then Json.◌>>=◌ (decoded res.tree) (λ reply.
      if str_eq reply.0 ""
      then err (external "oauth2 empty access_token in response")
      else ok reply)
    else err (
        external (
          str_append "oauth2 status="
            (str_append (decimal res.status_code) (str_append " body=" (text_of res.body)))))

-- Instants are numbers of nanoseconds; one before the zero time is taken for it.
abbrev pub add_duration : ℕ → ℤ → ℕ
add_duration at (pos d) = at + d
add_duration at (negsuc d) = at - suc d

-- How many seconds a token is kept: `expires_in` less the skew, one second at least.
abbrev pub kept_seconds : ℤ → ℤ → ℕ
kept_seconds expires_in skew =
    let expires = if leb_ℤ expires_in skew then pos_part skew + 1 else pos_part expires_in in
    expires - pos_part skew

-- `time.Duration(expires-skew) * time.Second`, an int64.
abbrev pub lifetime : ℤ → ℤ → ℤ
lifetime expires_in skew = wrap64 (pos (kept_seconds expires_in skew * second))

abbrev pub kept : OAuth2TokenSource → TokenReply → ℕ → OAuth2TokenSource
kept src reply at = record src {
  token = reply.0;
  expires_at = add_duration at (lifetime reply.1 src.cfg.skew_seconds);
}

abbrev pub refuse : Option Error → Call (Unit {0})
refuse none = pure tt
refuse (some e) = raise e

-- A new token, and the source that keeps it.
unfoldable pub fetch : OAuth2TokenSource → Call OAuth2TokenSource
fetch src = do
  on_error (wrapped "oauth2 new request") (λ s. refuse (s.network.parse_url src.cfg.token_url) s)
  res ← on_error (wrapped "oauth2 do") (request_token (form_of src.cfg))
  reply ← lift (read_token res)
  at ← time_now
  pure (kept src reply at)

-- Whether the token kept is served at an instant.
abbrev pub is_fresh : OAuth2TokenSource → ℕ → Bool
is_fresh src at = ltb at src.expires_at

abbrev pub fetch_unless : Bool → OAuth2TokenSource → Call OAuth2TokenSource
fetch_unless true src = pure src
fetch_unless false src = fetch src

-- The source after a call of `OAuth2TokenSource.Token`, whose token is returned. The clock is read
-- only when a token is kept; an error leaves the source as it was.
unfoldable pub refreshed : OAuth2TokenSource → Call OAuth2TokenSource
refreshed src =
    if str_eq src.token ""
    then fetch src
    else (do at ← time_now; fetch_unless (is_fresh src at) src)

-- `AuthSource.Token`, with the source as it is afterwards.
unfoldable pub token : AuthSource → Call (String × AuthSource)
unfolding refreshed
token (static_token_source t) = pure (t, static_token_source t)
token (oauth2_token_source src) = do
  src' ← refreshed src
  pure (src'.token, oauth2_token_source src')
