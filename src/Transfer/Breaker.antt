-- ===== src/Transfer/Breaker.antt =====
-- internal/modules/transfer/application/circuit_breaker.go: the circuit breaker in front of the
-- bank. Each method runs under the mutex, so it is one step from a state to the next. Instants and
-- durations are whole nanoseconds: `now.Sub(t) < d` is `now < t + d`, and `t.Before(now.Add(-d))`
-- is `t + d < now`. The failure rate, a float64, is a fraction `num / den`, and the quotient of two
-- counts is compared with it exactly.
pub mod Invariant
pub mod Rejection
pub mod Tripping
pub mod Window
use go_sunabar_payments.Base.{
  ℕ, zero, suc, ◌+◌, ◌*◌, ◌<◌, Bool, true, false, ◌||◌, List, [], ◌∷◌, ◌++◌, Option, none, some,
  length, ltb, leb, ◌==◌, if◌then◌else◌,
}
use go_sunabar_payments.Base.Int.{ℤ, pos, pos_part, ltb_ℤ, leb_ℤ}
use go_sunabar_payments.Platform.Errors.{Error, sentinel, circuit_open}

-- `StateClosed`, `StateOpen` and `StateHalfOpen`.
pub data State : Type 0 where
  closed opened half_open : State

pub record Rate : Type 0 where
  pub num : ℤ
  pub den : ℕ

-- `CircuitBreakerConfig`, as a caller gives it.
pub record Config : Type 0 where
  pub failure_threshold : ℤ
  pub reset_timeout : ℤ
  pub failure_rate : Rate
  pub min_requests : ℤ
  pub window_size : ℤ
  pub half_open_max_calls : ℤ

pub record Sample : Type 0 where
  pub at : ℕ
  pub success : Bool

-- `InMemoryCircuitBreaker`. After the corrections of the constructor no number is negative but
-- the window size, and a negative one is tested as 0 is.
pub record CircuitBreaker : Type 0 where
  pub failure_threshold : ℕ
  pub reset_timeout : ℕ
  pub failure_rate : Rate
  pub min_requests : ℕ
  pub window_size : ℕ
  pub half_open_max_calls : ℕ
  pub state : State
  pub failure_count : ℕ
  pub opened_at : ℕ
  pub half_open_inflight : ℕ
  pub samples : List Sample

abbrev pub second : ℕ
second = 1_000_000_000

-- `DefaultCircuitBreakerConfig`.
abbrev pub default_config : Config
default_config = record {
  failure_threshold = pos 3;
  reset_timeout = pos (30 * second);
  failure_rate = record { num = pos 1; den = 2 };
  min_requests = pos 5;
  window_size = pos (30 * second);
  half_open_max_calls = pos 1;
}

abbrev pub or_default : ℤ → ℤ → ℕ
or_default n default = pos_part (if leb_ℤ n (pos 0) then default else n)

abbrev clamp_rate : Rate → Rate
clamp_rate r =
    if ltb_ℤ r.num (pos 0)
    then record { num = pos 0; den = 1 }
    else if ltb_ℤ (pos r.den) r.num
    then record { num = pos 1; den = 1 }
    else r

-- `NewCircuitBreaker`.
unfoldable pub new_circuit_breaker : Config → CircuitBreaker
new_circuit_breaker cfg = record {
  failure_threshold = or_default cfg.failure_threshold default_config.failure_threshold;
  reset_timeout = or_default cfg.reset_timeout default_config.reset_timeout;
  failure_rate = clamp_rate cfg.failure_rate;
  min_requests = pos_part (if ltb_ℤ cfg.min_requests (pos 0) then pos 0 else cfg.min_requests);
  window_size = pos_part cfg.window_size;
  half_open_max_calls = or_default cfg.half_open_max_calls (pos 1);
  state = closed;
  failure_count = 0;
  opened_at = 0;
  half_open_inflight = 0;
  samples = [];
}

-- `toOpenLocked`.
to_open : CircuitBreaker → ℕ → CircuitBreaker
to_open b now = record b { state = opened; opened_at = now; half_open_inflight = 0 }

-- `toClosedLocked`; the zero time is 0.
to_closed : CircuitBreaker → CircuitBreaker
to_closed b = record b { state = closed; failure_count = 0; opened_at = 0; half_open_inflight = 0 }

half_open_after : State → CircuitBreaker → ℕ → CircuitBreaker
half_open_after opened b now =
    if ltb now (b.opened_at + b.reset_timeout)
    then b
    else record b { state = half_open; half_open_inflight = 0 }
half_open_after closed b now = b
half_open_after half_open b now = b

-- `maybeTransitionToHalfOpenLocked`.
maybe_transition_to_half_open : CircuitBreaker → ℕ → CircuitBreaker
unfolding half_open_after
maybe_transition_to_half_open b now = half_open_after b.state b now

-- The `switch` of `Allow`.
admit : State → CircuitBreaker → CircuitBreaker × Option Error
admit closed b = (b, none)
admit half_open b =
    if leb b.half_open_max_calls b.half_open_inflight
    then (b, some (sentinel circuit_open))
    else (record b { half_open_inflight = b.half_open_inflight + 1 }, none)
admit opened b = (b, some (sentinel circuit_open))

-- `Allow`: the new state, and the error if the call is refused.
unfoldable pub allow : CircuitBreaker → ℕ → CircuitBreaker × Option Error
unfolding maybe_transition_to_half_open admit
allow b now = let b' = maybe_transition_to_half_open b now in admit b'.state b'

-- The loop of `pruneSamplesLocked` over the samples before the cutoff.
unfoldable pub drop_old : ℕ → ℕ → List Sample → List Sample
drop_old now window [] = []
drop_old now window (s ∷ samples) =
    if ltb (s.at + window) now then drop_old now window samples else s ∷ samples

-- `pruneSamplesLocked`.
prune_samples : CircuitBreaker → ℕ → CircuitBreaker
prune_samples b now =
    if b.window_size == 0
    then record b { samples = [] }
    else record b { samples = drop_old now b.window_size b.samples }

-- `appendSampleLocked`.
unfoldable pub append_sample : CircuitBreaker → ℕ → Bool → CircuitBreaker
unfolding prune_samples
append_sample b now success =
    if b.window_size == 0
    then b
    else prune_samples
        (record b { samples = b.samples ++ record { at = now; success = success } ∷ [] }) now

-- The loop of `failureRateExceededLocked`.
count_failed : List Sample → ℕ
count_failed [] = 0
count_failed (s ∷ samples) = (if s.success then 0 else 1) + count_failed samples

-- `float64(failed) / float64(total) >= failureRate`.
rate_reached : Rate → ℕ → ℕ → Bool
rate_reached r failed total = leb (pos_part r.num * total) (failed * r.den)

-- `failureRateExceededLocked` prunes the samples before it counts.
unfoldable pub failure_rate_exceeded : CircuitBreaker → ℕ → CircuitBreaker × Bool
unfolding prune_samples count_failed rate_reached
failure_rate_exceeded b now =
    if leb_ℤ b.failure_rate.num (pos 0) || b.window_size == 0
    then (b, false)
    else let b' = prune_samples b now in
      let total = length b'.samples in
      if ltb total b'.min_requests || total == 0
      then (b', false)
      else (b', rate_reached b'.failure_rate (count_failed b'.samples) total)

success_in : State → CircuitBreaker → CircuitBreaker
success_in half_open b = to_closed b
success_in closed b = record b { failure_count = 0 }
success_in opened b = b

-- `RecordSuccess`.
unfoldable pub record_success : CircuitBreaker → ℕ → CircuitBreaker
unfolding success_in to_closed
record_success b now = let b' = append_sample b now true in success_in b'.state b'

open_if : Bool → CircuitBreaker → ℕ → CircuitBreaker
open_if true b now = to_open b now
open_if false b now = b

-- `b.failureCount >= b.failureThreshold || b.failureRateExceededLocked(now)`.
trip : CircuitBreaker → ℕ → CircuitBreaker
trip b now =
    if leb b.failure_threshold b.failure_count
    then to_open b now
    else let (b', exceeded) = failure_rate_exceeded b now in open_if exceeded b' now

failure_in : State → CircuitBreaker → ℕ → CircuitBreaker
failure_in half_open b now = to_open b now
failure_in opened b now = b
failure_in closed b now = trip (record b { failure_count = b.failure_count + 1 }) now

-- `RecordFailure`.
unfoldable pub record_failure : CircuitBreaker → ℕ → CircuitBreaker
unfolding failure_in trip open_if to_open
record_failure b now = let b' = append_sample b now false in failure_in b'.state b' now

-- `State`: the state that is reported, after a transition that is due.
unfoldable pub current_state : CircuitBreaker → ℕ → CircuitBreaker × State
unfolding maybe_transition_to_half_open
current_state b now = let b' = maybe_transition_to_half_open b now in (b', b'.state)
