-- ===== src/Transfer/Breaker/Invariant.antt =====
-- What holds of the circuit breaker (internal/modules/transfer/application/circuit_breaker.go)
-- after any calls of its methods.
use go_sunabar_payments.Base.{ℕ, ◌+◌, ◌≤◌, ◌<◌, ◌≡◌, ◌≢◌, Bool, true, false, List, [], ◌∷◌, arith}
use go_sunabar_payments.Transfer.Breaker.{
  closed, half_open, Config, CircuitBreaker, new_circuit_breaker, allow, append_sample,
  record_success, record_failure, failure_rate_exceeded, current_state,
}

-- The calls of a client.
pub data Call : Type 0 where
  allows successes failures asks_state : Call

-- One call at an instant.
abbrev pub call : CircuitBreaker → ℕ → Call → CircuitBreaker
call b now allows = (allow b now).0
call b now successes = record_success b now
call b now failures = record_failure b now
call b now asks_state = (current_state b now).0

unfoldable pub run : CircuitBreaker → List (ℕ × Call) → CircuitBreaker
run b [] = b
run b ((now, c) ∷ calls) = run (call b now c) calls

-- The settings are usable; the probes in flight are within their limit, and there are none unless
-- the breaker is half open; while it is closed the failures in a row are below the threshold.
pub record IsValid (b : CircuitBreaker) : Type 0 where
  pub threshold_pos : 0 < b.failure_threshold
  pub timeout_pos : 0 < b.reset_timeout
  pub probes_pos : 0 < b.half_open_max_calls
  pub probes_bounded : b.half_open_inflight ≤ b.half_open_max_calls
  pub probes_half_open : b.state ≢ half_open → b.half_open_inflight ≡ 0
  pub failures_bounded : b.state ≡ closed → b.failure_count < b.failure_threshold

new-IsValid : (cfg : Config) → IsValid (new_circuit_breaker cfg)
unfolding new_circuit_breaker
new-IsValid cfg = ground arith

allow-IsValid : (b : CircuitBreaker) (now : ℕ) → IsValid b → IsValid (allow b now).0
unfolding allow
allow-IsValid b now v = ground arith

append_sample-IsValid :
    (b : CircuitBreaker) (now : ℕ) (s : Bool) → IsValid b → IsValid (append_sample b now s)
unfolding append_sample
append_sample-IsValid b now s v = ground arith

-- Only the samples change.
pub record SameButSamples (b b' : CircuitBreaker) : Type 0 where
  pub threshold : b'.failure_threshold ≡ b.failure_threshold
  pub timeout : b'.reset_timeout ≡ b.reset_timeout
  pub max_calls : b'.half_open_max_calls ≡ b.half_open_max_calls
  pub window : b'.window_size ≡ b.window_size
  pub state : b'.state ≡ b.state
  pub count : b'.failure_count ≡ b.failure_count
  pub since : b'.opened_at ≡ b.opened_at
  pub inflight : b'.half_open_inflight ≡ b.half_open_inflight

pub append_sample_same :
    (b : CircuitBreaker) (now : ℕ) (s : Bool) → SameButSamples b (append_sample b now s)
unfolding append_sample
append_sample_same b now s = ground arith

pub failure_rate_exceeded_same :
    (b : CircuitBreaker) (now : ℕ) → SameButSamples b (failure_rate_exceeded b now).0
unfolding failure_rate_exceeded
failure_rate_exceeded_same b now = ground arith

record_success-IsValid : (b : CircuitBreaker) (now : ℕ) → IsValid b → IsValid (record_success b now)
unfolding record_success
record_success-IsValid b now v =
    ground (arith, append_sample_same b now true, append_sample-IsValid b now true v)

record_failure-IsValid : (b : CircuitBreaker) (now : ℕ) → IsValid b → IsValid (record_failure b now)
unfolding record_failure
record_failure-IsValid b now v =
    let b' = append_sample b now false in
    let counted = record b' { failure_count = b'.failure_count + 1 } in
    ground (arith, append_sample-IsValid b now false v, failure_rate_exceeded_same counted now)

current_state-IsValid : (b : CircuitBreaker) (now : ℕ) → IsValid b → IsValid (current_state b now).0
unfolding current_state
current_state-IsValid b now v = ground arith

call-IsValid : (b : CircuitBreaker) (now : ℕ) (c : Call) → IsValid b → IsValid (call b now c)
call-IsValid b now allows v = allow-IsValid b now v
call-IsValid b now successes v = record_success-IsValid b now v
call-IsValid b now failures v = record_failure-IsValid b now v
call-IsValid b now asks_state v = current_state-IsValid b now v

run-IsValid : (b : CircuitBreaker) (calls : List (ℕ × Call)) → IsValid b → IsValid (run b calls)
unfolding run
run-IsValid b [] v = v
run-IsValid b ((now, c) ∷ calls) v = run-IsValid (call b now c) calls (call-IsValid b now c v)

-- Whatever the configuration and the calls, at any instants, the breaker stays valid: its settings
-- are positive, its probes are within their limit and only in flight while it is half open, and a
-- closed breaker has fewer failures in a row than its threshold.
pub breaker-IsValid :
    (cfg : Config) (calls : List (ℕ × Call)) → IsValid (run (new_circuit_breaker cfg) calls)
breaker-IsValid cfg calls = run-IsValid (new_circuit_breaker cfg) calls (new-IsValid cfg)
