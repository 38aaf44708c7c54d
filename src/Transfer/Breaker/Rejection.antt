-- ===== src/Transfer/Breaker/Rejection.antt =====
-- Which calls the circuit breaker (internal/modules/transfer/application/circuit_breaker.go) lets
-- through while it protects the bank.
use go_sunabar_payments.Base.{
  ℕ, ◌+◌, ◌≤◌, ◌<◌, ◌≡◌, refl, ◌≢◌, true, false, List, [], ◌∷◌, Option, none, some, arith, All,
}
use go_sunabar_payments.Platform.Errors.{Error}
use go_sunabar_payments.Transfer.Breaker.{
  closed, opened, CircuitBreaker, allow, record_success, record_failure, current_state,
}
use go_sunabar_payments.Transfer.Breaker.Invariant.{
  Call, allows, successes, failures, asks_state, call, run, IsValid, append_sample_same,
}

-- 1 for a call of `Allow` that returns nil.
abbrev pub granted : Call → Option Error → ℕ
granted allows none = 1
granted allows (some _) = 0
granted _ _ = 0

-- How many calls of `Allow` return nil.
unfoldable pub admitted : CircuitBreaker → List (ℕ × Call) → ℕ
admitted b [] = 0
admitted b ((now, c) ∷ calls) = granted c (allow b now).1 + admitted (call b now c) calls

abbrev pub Before : ℕ → ℕ × Call → Type 0
Before deadline (now, _) = now < deadline

opened_call :
    (b : CircuitBreaker) (now : ℕ) (c : Call)
    → b.state ≡ opened
    → now < b.opened_at + b.reset_timeout
    → let b' = call b now c in
      (granted c (allow b now).1 ≡ 0)
      × (b'.state ≡ opened)
      × (b'.opened_at ≡ b.opened_at)
      × (b'.reset_timeout ≡ b.reset_timeout)
unfolding allow record_success record_failure current_state
opened_call b now allows o h = ground arith
opened_call b now successes o h = ground (arith, append_sample_same b now true)
opened_call b now failures o h = ground (arith, append_sample_same b now false)
opened_call b now asks_state o h = ground arith

-- Until the reset timeout has passed since it opened, an open breaker admits no call and stays
-- open, whatever calls and late results come in.
pub open_rejects_all :
    (b : CircuitBreaker) (calls : List (ℕ × Call))
    → b.state ≡ opened
    → All (Before (b.opened_at + b.reset_timeout)) calls
    → (admitted b calls ≡ 0) × ((run b calls).state ≡ opened)
unfolding admitted run
open_rejects_all b [] o h = (refl, o)
open_rejects_all b ((now, c) ∷ calls) o h =
    let (refused, still, since, timeout) = opened_call b now c o h.0 in
    let (none_later, end) = open_rejects_all (call b now c) calls still (rw (since, timeout) h.1) in
    (omega arith, end)

-- A call that brings no result.
abbrev pub IsAsking : ℕ × Call → Type 0
IsAsking (_, allows) = Unit
IsAsking (_, asks_state) = Unit
IsAsking (_, successes) = ⊥
IsAsking (_, failures) = ⊥

asking_call :
    (b : CircuitBreaker) (now : ℕ) (c : Call)
    → IsAsking (now, c)
    → IsValid b
    → b.state ≢ closed
    → let b' = call b now c in
      (b'.state ≢ closed)
      × IsValid b'
      × (b'.half_open_max_calls ≡ b.half_open_max_calls)
      × (granted c (allow b now).1 + b.half_open_inflight ≤ b'.half_open_inflight)
unfolding allow current_state
asking_call b now allows a v o = ground arith
asking_call b now asks_state a v o = ground arith
asking_call b now successes a v o = elim a [ ]
asking_call b now failures a v o = elim a [ ]

probes_from :
    (b : CircuitBreaker) (calls : List (ℕ × Call))
    → IsValid b
    → b.state ≢ closed
    → All IsAsking calls
    → admitted b calls + b.half_open_inflight ≤ b.half_open_max_calls
unfolding admitted
probes_from b [] v o h = omega arith
probes_from b ((now, c) ∷ calls) v o h =
    let (o', v', same, counted) = asking_call b now c h.0 v o in
    let later = probes_from (call b now c) calls v' o' h.1 in omega arith

-- While no result of a probe has come in, a valid breaker that is not closed admits no more calls
-- than its limit of probes, however long it is asked.
pub probes_bounded :
    (b : CircuitBreaker) (calls : List (ℕ × Call))
    → IsValid b
    → b.state ≢ closed
    → All IsAsking calls
    → admitted b calls ≤ b.half_open_max_calls
probes_bounded b calls v o h = omega (arith, probes_from b calls v o h)
