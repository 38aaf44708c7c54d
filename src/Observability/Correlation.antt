-- ===== src/Observability/Correlation.antt =====
-- internal/platform/observability/correlation.go and middleware.go, and `LoggerFromContext` of logger.go.
-- An identifier is the list of its bytes; a context is the identifier that it carries, if any. Of the next
-- handler the middleware sees the codes given to `WriteHeader`, in their order.
use mathlib.Core.List.{append-nil, append_assoc}
use go_sunabar_payments.Base.{
  ℕ, ◌+◌, ◌-◌, ◌*◌, ◌/◌, ◌%◌, ◌≡◌, refl, sym, ◌∙◌, List, [], ◌∷◌, ◌++◌, Option, none, some, length,
  ltb, arith, if◌then◌else◌,
}
use go_sunabar_payments.Sunabar.Number.{codes}

abbrev hex_digit : ℕ → ℕ
hex_digit n = if ltb n 10 then b'0' + n else b'a' + (n - 10)

-- `hex.EncodeToString`.
abbrev pub hex_encode : List ℕ → List ℕ
hex_encode [] = []
hex_encode (b ∷ bytes) = hex_digit (b / 16) ∷ hex_digit (b % 16) ∷ hex_encode bytes

-- `NewCorrelationID`, of the bytes that `rand.Read` gives, if it gives any.
unfoldable pub new_correlation_id : Option (List ℕ) → List ℕ
new_correlation_id none = codes "fallback-id"
new_correlation_id (some bytes) = hex_encode bytes

-- `WithCorrelationID`.
unfoldable pub with_correlation_id : Option (List ℕ) → List ℕ → Option (List ℕ)
with_correlation_id random [] = some (new_correlation_id random)
with_correlation_id random (c ∷ id) = some (c ∷ id)

-- `CorrelationIDFromContext`.
unfoldable pub correlation_id_from_context : Option (List ℕ) → List ℕ
correlation_id_from_context none = []
correlation_id_from_context (some id) = id

abbrev unless_empty : List ℕ → Option (List ℕ)
unless_empty [] = none
unless_empty (c ∷ id) = some (c ∷ id)

-- The attribute `correlation_id` that `LoggerFromContext` adds, if it adds it.
unfoldable pub logged_id : Option (List ℕ) → Option (List ℕ)
logged_id ctx = unless_empty (correlation_id_from_context ctx)

-- `responseRecorder`, with the codes that the writer below has been given.
pub record ResponseRecorder : Type 0 where
  pub status : ℕ
  pub written : List ℕ

-- `WriteHeader`.
unfoldable pub write_header : ResponseRecorder → ℕ → ResponseRecorder
write_header rec status = record { status = status; written = rec.written ++ status ∷ [] }

abbrev write_headers : ResponseRecorder → List ℕ → ResponseRecorder
write_headers rec [] = rec
write_headers rec (status ∷ rest) = write_headers (write_header rec status) rest

-- What comes of a request: the header X-Request-ID of the response, the context of the next handler, the
-- codes given to the writer, and what the log line says.
pub record Exchange : Type 0 where
  pub response_id : List ℕ
  pub context : Option (List ℕ)
  pub written : List ℕ
  pub logged_status : ℕ
  pub correlation_id : Option (List ℕ)

-- `HTTPMiddleware`, of the header X-Request-ID of the request.
unfoldable pub http_middleware : Option (List ℕ) → List ℕ → (Option (List ℕ) → List ℕ) → Exchange
http_middleware random header next =
    let ctx = with_correlation_id random header in
    let rec = write_headers (record { status = 200; written = [] }) (next ctx) in
    record {
      response_id = correlation_id_from_context ctx;
      context = ctx;
      written = rec.written;
      logged_status = rec.status;
      correlation_id = logged_id ctx;
    }

pub length-hex_encode : (bytes : List ℕ) → length (hex_encode bytes) ≡ 2 * length bytes
length-hex_encode [] = refl
length-hex_encode (b ∷ bytes) = omega (arith, length-hex_encode bytes)

abbrev last_or : ℕ → List ℕ → ℕ
last_or status [] = status
last_or status (next ∷ rest) = last_or next rest

headers_written :
    (rec : ResponseRecorder) (sent : List ℕ)
    → ((write_headers rec sent).written ≡ rec.written ++ sent)
      × ((write_headers rec sent).status ≡ last_or rec.status sent)
unfolding write_header
headers_written rec [] = (sym (append-nil rec.written), refl)
headers_written rec (status ∷ rest) =
    let (w, s) = headers_written (write_header rec status) rest in
    (w ∙ append_assoc rec.written (status ∷ []) rest, s)

-- The writer is given the codes that the next handler gives, in its order, and the log line has the last
-- of them, or 200.
pub http_middleware-statuses :
    (random : Option (List ℕ)) (header : List ℕ) (next : Option (List ℕ) → List ℕ)
    → ((http_middleware random header next).written ≡ next (with_correlation_id random header))
      × ((http_middleware random header next).logged_status
          ≡ last_or 200 (next (with_correlation_id random header)))
unfolding http_middleware
http_middleware-statuses random header next =
    headers_written (record { status = 200; written = [] })
      (next (with_correlation_id random header))
