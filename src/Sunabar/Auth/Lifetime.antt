-- ===== src/Sunabar/Auth/Lifetime.antt =====
-- How long a token is served (internal/platform/sunabar/auth.go).
use go_sunabar_payments.Base.{
  ℕ, ◌+◌, ◌-◌, ◌*◌, ◌^◌, ◌≤◌, ◌<◌, ◌≡◌, refl, ap, ◌∙◌, ◌⊎◌, inl, inr, Bool, true, false, [], ◌∷◌,
  ◌++◌, String, str_eq, ltb, arith, Bool-cases, Option-cases,
}
use go_sunabar_payments.Base.Int.{ℤ, pos, wrap64, wrap64_id}
use go_sunabar_payments.Platform.Errors.{Error, Result, ok, err}
use go_sunabar_payments.Transfer.Breaker.{second}
use go_sunabar_payments.Sunabar.Session.{
  HttpResponse, OAuth2TokenSource, Session, Call, pure, raise, lift, ◌>>=◌, on_error, time_now,
  request_token,
}
use go_sunabar_payments.Sunabar.Auth.{
  TokenReply, form_of, read_token, add_duration, kept_seconds, lifetime, kept, fetch, is_fresh,
  fetch_unless, refreshed,
}

-- One request has been sent to the endpoint, and the source keeps what its answer says, from the
-- instant that the clock gives once it is read.
pub record Fetched (src : OAuth2TokenSource) (s : Session) (src' : OAuth2TokenSource) (s' : Session)
    : Type 0 where
  pub res : HttpResponse
  pub reply : TokenReply
  pub answered : s.network.token_reply s.calls (form_of src.cfg) ≡ ok res
  pub read : read_token res ≡ ok reply
  pub keeps : src' ≡ kept src reply (s.network.clock s.ticks)
  pub asked : s'.token_requests ≡ s.token_requests ++ form_of src.cfg ∷ []
  pub ticked : s'.ticks ≡ s.ticks + 1

Result-cases : {A : Type 0} (r : Result A) → ((a : A) × (r ≡ ok a)) ⊎ ((e : Error) × (r ≡ err e))
Result-cases (ok a) = inl (a, refl)
Result-cases (err e) = inr (e, refl)

-- A fetch that succeeds has had an answer that reads as a token.
fetch-Fetched :
    (src src' : OAuth2TokenSource) (s : Session)
    → (fetch src s).0 ≡ ok src'
    → Fetched src s src' (fetch src s).1
unfolding fetch pure raise lift on_error request_token time_now ◌>>=◌
fetch-Fetched src src' s h = elim (Option-cases (s.network.parse_url src.cfg.token_url)) [
  | inr (e, q) ↦ absurd (no_error (rw q at h))
  | inl q ↦ elim (Result-cases (s.network.token_reply s.calls (form_of src.cfg))) [
    | inr (e, r) ↦ absurd (no_error (rw (q, r) at h))
    | inl (res, r) ↦ elim (Result-cases (read_token res)) [
      | inr (e, t) ↦ absurd (no_error (rw (q, r, t) at h))
      | inl (reply, t) ↦
          rw (q, r, t)
            (record {
              res = res;
              reply = reply;
              answered = r;
              read = t;
              keeps = same (rw (q, r, t) at h);
              asked = refl;
              ticked = refl;
            })
    ]
  ]
]
  where
    no_error : {e : Error} → err e ≡ ok src' → ⊥
    no_error h = cc

    same : {a : OAuth2TokenSource} → ok a ≡ ok src' → src' ≡ a
    same h = cc

-- The clock has been read.
abbrev pub ticked : Session → Session
ticked s = record s { ticks = s.ticks + 1 }

-- The source has a token, the instant is before its end, and nothing but the clock has been asked.
abbrev pub Served : OAuth2TokenSource → Session → OAuth2TokenSource → Session → Type 0
Served src s src' s' =
    (str_eq src.token "" ≡ false)
    × (s.network.clock s.ticks < src.expires_at)
    × (src' ≡ src)
    × (s' ≡ ticked s)

-- A call that returns a token serves the one that is kept, before the end of its time and without a
-- request, or the one of an answer that the endpoint has just given to one request; the latter only
-- when none is kept or its time is over.
pub refreshed_cases :
    (src src' : OAuth2TokenSource) (s : Session)
    → (refreshed src s).0 ≡ ok src'
    → Served src s src' (refreshed src s).1
      ⊎ (((str_eq src.token "" ≡ true) × Fetched src s src' (refreshed src s).1)
          ⊎ ((src.expires_at ≤ s.network.clock s.ticks)
              × Fetched src (ticked s) src' (refreshed src s).1))
unfolding refreshed time_now ◌>>=◌ pure
refreshed_cases src src' s h = elim (Bool-cases (str_eq src.token "")) [
  | inl y ↦ rw y (inr (inl (refl, fetch-Fetched src src' s (rw y at h))))
  | inr n ↦ elim (Bool-cases (ltb (s.network.clock s.ticks) src.expires_at)) [
    | inl f ↦ rw (n, f) (inl (refl, ground arith, same (rw (n, f) at h), refl))
    | inr f ↦
        rw (n, f) (inr (inr (ground arith, fetch-Fetched src src' (ticked s) (rw (n, f) at h))))
  ]
]
  where
    same : {a : OAuth2TokenSource} → ok a ≡ ok src' → src' ≡ a
    same h = cc

-- What a source that keeps a token returns at its next call.
abbrev pub served_or_fetched : Bool → OAuth2TokenSource → Call OAuth2TokenSource
served_or_fetched true src s = (ok src, ticked s)
served_or_fetched false src s = fetch src (ticked s)

refreshed-kept :
    (src : OAuth2TokenSource) (s : Session)
    → str_eq src.token "" ≡ false
    → refreshed src s ≡ served_or_fetched (is_fresh src (s.network.clock s.ticks)) src s
unfolding refreshed time_now ◌>>=◌ pure
refreshed-kept src s h = rw h (go (is_fresh src (s.network.clock s.ticks)))
  where
    go : (b : Bool) → fetch_unless b src (ticked s) ≡ served_or_fetched b src s
    go true = refl
    go false = refl

kept-expiry :
    (skew n at : ℕ) (q : ℤ)
    → q ≡ pos skew
    → skew < n
    → n * second < 2 ^ 63
    → add_duration at (lifetime (pos n) q) ≡ at + (n - skew) * second
kept-expiry skew n at q e few small =
    ap (λ (x : ℤ). add_duration at (lifetime (pos n) x)) e
    ∙ ap (λ (k : ℕ). add_duration at (wrap64 (pos (k * second)))) seconds
    ∙ ap (add_duration at) (wrap64_id (pos ((n - skew) * second)) (omega arith, omega arith))
  where
    seconds : kept_seconds (pos n) (pos skew) ≡ n - skew
    seconds = ground arith

same_test :
    (now expiry skew n at : ℕ)
    → expiry ≡ at + (n - skew) * second
    → skew < n
    → ltb now expiry ≡ ltb (now + skew * second) (at + n * second)
same_test now expiry skew n at e few = ground arith

-- A token that was read at an instant and lives longer than the skew, for less than 2^63 nanoseconds,
-- is served at the next call exactly if the clock is then more than the skew before the end of its
-- life; else a new one is fetched.
pub served_until_skew :
    (src : OAuth2TokenSource) (t : String) (n skew at : ℕ) (s : Session)
    → str_eq t "" ≡ false
    → src.cfg.skew_seconds ≡ pos skew
    → skew < n
    → n * second < 2 ^ 63
    → refreshed (kept src (t, pos n) at) s
      ≡ served_or_fetched
          (ltb (s.network.clock s.ticks + skew * second) (at + n * second))
          (kept src (t, pos n) at)
          s
served_until_skew src t n skew at s named q few small =
    let src' = kept src (t, pos n) at in
    refreshed-kept src' s named
    ∙ ap (λ b. served_or_fetched b src' s)
        (same_test (s.network.clock s.ticks) src'.expires_at skew n at
          (kept-expiry skew n at src.cfg.skew_seconds q few small) few)
