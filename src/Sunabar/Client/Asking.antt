-- ===== src/Sunabar/Client/Asking.antt =====
-- What the client asks of the bank (internal/platform/sunabar/http_client.go).
use go_sunabar_payments.Base.{
  ℕ, ◌+◌, ◌≡◌, ◌≢◌, refl, ◌∙◌, ◌⊎◌, inl, inr, false, [], ◌∷◌, ◌++◌, String, str_eq, eq_iff, arith,
  Bool-cases, if◌then◌else◌,
}
use go_sunabar_payments.Base.Int.{pos, leb_ℤ, ◌<ℤ◌, InRange64}
use go_sunabar_payments.Platform.Errors.{Error, Result, ok, err, wrapped}
use go_sunabar_payments.Platform.Bank.{TransferRequest, TransferResult}
use go_sunabar_payments.Sunabar.Json.{Members}
use go_sunabar_payments.Sunabar.Number.{parse_sunabar_int}
use go_sunabar_payments.Sunabar.Number.RoundTrip.{parse-format_int}
use go_sunabar_payments.Sunabar.Wire.{TransferResponse, decode_transfer}
use go_sunabar_payments.Sunabar.Session.{
  HttpResponse, Session, pure, raise, lift, continue, ◌>>=◌, on_error, rewrap, time_now, http_do,
}
use go_sunabar_payments.Sunabar.Client.{Ask, http_request, authorize, read_answer, send, do_request}
use go_sunabar_payments.Sunabar.Client.Orders.{
  today_unless, transfer_payload, transfer_ask, transfer_result, post_transfer, request_transfer,
}
use go_sunabar_payments.Sunabar.Client.Silent.{
  Same, Same-refl, Silent, Silent-authorize, Silent-pure, Silent-bind, Silent-time_now,
}

module _ {A : Type 0} (decode : Members → Result A) where
  -- What an answer, or its absence, is for the caller.
  abbrev pub concluded : Result HttpResponse → Result A
  concluded (ok res) = read_answer decode res
  concluded (err e) = err (wrapped "http do" e)

  -- Nothing has been sent, and there is an error; or the request, with some token, and the result is
  -- that of its answer.
  abbrev pub Asked : Ask → Session → Result A × Session → Type 0
  Asked a s (r, s') =
      ((s'.sent ≡ s.sent) × (e : Error) × (r ≡ err e))
      ⊎ ((t : String) × (n : ℕ) × (s'.sent ≡ s.sent ++ http_request a s.client.base_url t ∷ [])
          × (r ≡ concluded (s.network.respond n (http_request a s.client.base_url t))))

  answered :
      (r : Result HttpResponse) (s : Session)
      → continue (rewrap (wrapped "http do") r) (λ res. lift (read_answer decode res)) s
        ≡ (concluded r, s)
  unfolding lift
  answered (ok res) s = refl
  answered (err e) s = refl

  sent-Asked :
      (a : Ask) (s s1 : Session) (t : String)
      → Same s s1
      → Asked a s
          ((on_error (wrapped "http do") (send a t) >>= λ res. lift (read_answer decode res)) s1)
  unfolding send http_do on_error ◌>>=◌
  sent-Asked a s s1 t same =
      let req1 = http_request a s1.client.base_url t in
      rw
        (answered (s1.network.respond s1.calls req1)
          (record s1 { calls = s1.calls + 1; sent = s1.sent ++ req1 ∷ [] }))
        (inr
          (t, s1.calls, rw (same.sent, same.base_url) refl, rw (same.network, same.base_url) refl))

  -- `do` sends the bank one request at most, with the base URL, the path, the query, the body and the
  -- key that it is given, and returns what the answer says; when it sends none it returns an error.
  pub do_request-Asked : (a : Ask) (s : Session) → Asked a s (do_request decode a s)
  unfolding do_request ◌>>=◌
  do_request-Asked a s =
      go (authorize a.path s).0 (authorize a.path s).1 ((Silent-authorize a.path).at s)
    where
      go :
          (r : Result String) (s1 : Session)
          → Same s s1
          → Asked a s (
              continue r
                (λ t.
                  on_error (wrapped "http do") (send a t) >>= λ res. lift (read_answer decode res))
                s1)
      go (ok t) s1 same = sent-Asked a s s1 t same
      go (err e) s1 same = inl (same.sent, e, refl)

-- The request that hands a transfer over: it goes out once, for a named source and a positive amount,
-- with an amount that reads back as the one to be transferred, on the day given or else the day of Japan.
abbrev pub Handed : TransferRequest → Session → Session → Type 0
Handed req s s' =
    (t : String) × (at : ℕ) × (date : String) × (s'.sent
      ≡ s.sent ++ http_request (transfer_ask req date) s.client.base_url t ∷ [])
    × (date ≡ (if str_eq req.transfer_date "" then s.network.jst_date at else req.transfer_date))
    × (parse_sunabar_int (transfer_payload req date).total_amount ≡ ok req.amount)
    × (req.source_account_id ≢ "")
    × (pos 0 <ℤ req.amount)

abbrev pub TransferAsked : TransferRequest → Session → Result TransferResult × Session → Type 0
TransferAsked req s (r, s') = ((s'.sent ≡ s.sent) × (e : Error) × (r ≡ err e)) ⊎ Handed req s s'

Silent-transfer_result : (resp : TransferResponse) → Silent (transfer_result resp)
unfolding on_error
Silent-transfer_result resp =
    Silent-bind _ _ (record { at = λ s. Same-refl s }) (λ at. Silent-pure _)

-- The day that is sent.
dated :
    (given : String) (s : Session)
    → (date : String) × (at : ℕ) × (s1 : Session) × (today_unless given s ≡ (ok date, s1))
      × Same s s1
      × (date ≡ (if str_eq given "" then s.network.jst_date at else given))
unfolding time_now ◌>>=◌ pure
dated given s = elim (Bool-cases (str_eq given "")) [
  | inl y ↦ rw y (
    s.network.jst_date (s.network.clock s.ticks),
    s.network.clock s.ticks,
    record s { ticks = s.ticks + 1 },
    refl,
    Silent-time_now.at s,
    refl,
  )
  | inr n ↦ rw n (given, 0, s, refl, Same-refl s, refl)
]

named : (s : String) → str_eq s "" ≡ false → s ≢ ""
named s h q = ground (arith, eq_iff s "")

module _ (req : TransferRequest) (s : Session) (fits : InRange64 req.amount) where
  answered-TransferAsked :
      (date : String) (at : ℕ) (s1 : Session)
      → Same s s1
      → (date ≡ (if str_eq req.transfer_date "" then s.network.jst_date at else req.transfer_date))
      → req.source_account_id ≢ ""
      → pos 0 <ℤ req.amount
      → (o : Result TransferResponse × Session) → Asked decode_transfer (transfer_ask req date) s1 o
      → TransferAsked req s (continue o.0 transfer_result o.1)
  answered-TransferAsked date at s1 same day source positive (err e, s2) (inl (q, _, _)) =
      inl (q ∙ same.sent, e, refl)
  answered-TransferAsked date at s1 same day source positive (ok resp, s2) (inl (q, e, h)) = cc
  answered-TransferAsked date at s1 same day source positive (err e, s2) (inr (t, n, q, _)) = inr (
    t,
    at,
    date,
    rw (same.sent, same.base_url) at q,
    day,
    parse-format_int req.amount fits,
    source,
    positive,
  )
  answered-TransferAsked date at s1 same day source positive (ok resp, s2) (inr (t, n, q, _)) =
      inr (
        t,
        at,
        date,
        ((Silent-transfer_result resp).at s2).sent ∙ rw (same.sent, same.base_url) at q,
        day,
        parse-format_int req.amount fits,
        source,
        positive,
      )

  post-TransferAsked :
      req.source_account_id ≢ "" → pos 0 <ℤ req.amount → TransferAsked req s (post_transfer req s)
  unfolding post_transfer ◌>>=◌
  post-TransferAsked source positive =
      let (date, at, s1, q, same, day) = dated req.transfer_date s in
      rw q (
        answered-TransferAsked date at s1 same day source positive
          (do_request decode_transfer (transfer_ask req date) s1)
          (do_request-Asked decode_transfer (transfer_ask req date) s1))

  -- An amount of an int64 given, `RequestTransfer` either sends the bank nothing and returns an error,
  -- or hands the transfer over in one request, under its idempotency key, only for a named source and a
  -- positive amount, which is written so that it reads back.
  pub TransferAsked-once : TransferAsked req s (request_transfer req s)
  unfolding request_transfer raise
  TransferAsked-once = elim (Bool-cases (str_eq req.source_account_id "")) [
    | inl y ↦ rw y (inl (refl, _, refl))
    | inr n ↦ elim (Bool-cases (leb_ℤ req.amount (pos 0))) [
      | inl y ↦ rw (n, y) (inl (refl, _, refl))
      | inr m ↦ rw (n, m) (post-TransferAsked (named req.source_account_id n) (ground arith))
    ]
  ]
