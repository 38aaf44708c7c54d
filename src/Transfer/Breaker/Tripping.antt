-- ===== src/Transfer/Breaker/Tripping.antt =====
-- When the circuit breaker (internal/modules/transfer/application/circuit_breaker.go) opens, and
-- how it comes back.
use go_sunabar_payments.Base.{
  ℕ, ◌+◌, ◌≤◌, ◌<◌, ◌≡◌, ◌↔◌, ◌⊎◌, inl, inr, true, false, List, [], ◌∷◌, none, arith, length, leb,
  Bool-cases,
}
use go_sunabar_payments.Transfer.Breaker.{
  closed, opened, CircuitBreaker, allow, append_sample, failure_rate_exceeded, record_success,
  record_failure,
}
use go_sunabar_payments.Transfer.Breaker.Invariant.{
  IsValid, append_sample_same, failure_rate_exceeded_same,
}

-- Failures at the instants, with nothing in between.
unfoldable pub fail_all : CircuitBreaker → List ℕ → CircuitBreaker
fail_all b [] = b
fail_all b (now ∷ nows) = fail_all (record_failure b now) nows

opened_failure :
    (b : CircuitBreaker) (now : ℕ) → b.state ≡ opened → (record_failure b now).state ≡ opened
unfolding record_failure
opened_failure b now o = ground (arith, append_sample_same b now false)

opened_failures :
    (b : CircuitBreaker) (nows : List ℕ) → b.state ≡ opened → (fail_all b nows).state ≡ opened
unfolding fail_all
opened_failures b [] o = o
opened_failures b (now ∷ nows) o =
    opened_failures (record_failure b now) nows (opened_failure b now o)

-- The breaker after it has counted one more failure.
abbrev counted : CircuitBreaker → ℕ → CircuitBreaker
counted b now =
    let b' = append_sample b now false in record b' { failure_count = b'.failure_count + 1 }

closed_failure :
    (b : CircuitBreaker) (now : ℕ)
    → b.state ≡ closed
    → let b' = record_failure b now in
      (b'.failure_threshold ≡ b.failure_threshold)
      × ((b'.state ≡ opened) ⊎ ((b'.state ≡ closed) × (b'.failure_count ≡ b.failure_count + 1)))
unfolding record_failure
closed_failure b now c =
    ground (arith, append_sample_same b now false, failure_rate_exceeded_same (counted b now) now)

threshold_failure :
    (b : CircuitBreaker) (now : ℕ)
    → b.state ≡ closed
    → b.failure_threshold ≤ b.failure_count + 1
    → (record_failure b now).state ≡ opened
unfolding record_failure
threshold_failure b now c h = ground (arith, append_sample_same b now false)

trip_from :
    (b : CircuitBreaker) (nows : List ℕ)
    → b.state ≡ closed
    → b.failure_count < b.failure_threshold
    → b.failure_threshold ≤ b.failure_count + length nows
    → (fail_all b nows).state ≡ opened
unfolding fail_all
trip_from b [] c below h = absurd (omega arith)
trip_from b (now ∷ nows) c below h =
    elim (Bool-cases (leb b.failure_threshold (b.failure_count + 1))) [
      | inl reached ↦
          opened_failures (record_failure b now) nows (threshold_failure b now c (ground arith))
      | inr short ↦
          let (same, next) = closed_failure b now c in
          elim next [
            | inl o ↦ opened_failures (record_failure b now) nows o
            | inr (c', one_more) ↦
                trip_from (record_failure b now) nows c' (ground arith) (ground arith)
          ]
    ]

-- As many failures in a row as the threshold still wants open a valid closed breaker, and it stays
-- open under the failures that come after.
pub failures_trip :
    (b : CircuitBreaker) (nows : List ℕ)
    → IsValid b
    → b.state ≡ closed
    → b.failure_threshold ≤ b.failure_count + length nows
    → (fail_all b nows).state ≡ opened
failures_trip b nows v c h = trip_from b nows c (v.failures_bounded c) h

-- A failure opens a closed breaker exactly if the failures in a row reach the threshold or the rate
-- of failures in the window does; it then counts as opened at that instant.
pub failure_opens_iff :
    (b : CircuitBreaker) (now : ℕ)
    → b.state ≡ closed
    → ((record_failure b now).state ≡ opened) ↔ (
        (b.failure_threshold ≤ b.failure_count + 1)
        ⊎ ((failure_rate_exceeded (counted b now) now).1 ≡ true))
unfolding record_failure
failure_opens_iff b now c = (
  λ h.
      ground
        (arith, append_sample_same b now false, failure_rate_exceeded_same (counted b now) now),
  λ h.
      ground
        (arith, append_sample_same b now false, failure_rate_exceeded_same (counted b now) now),
)

-- After the reset timeout a valid open breaker admits a probe; if that succeeds the breaker is closed
-- with no failure counted, and if it fails the breaker is open again, from the failure on.
pub probe_decides :
    (b : CircuitBreaker) (now later : ℕ)
    → IsValid b
    → b.state ≡ opened
    → b.opened_at + b.reset_timeout ≤ now
    → let (b', refused) = allow b now in
      (refused ≡ none)
      × ((record_success b' later).state ≡ closed)
      × ((record_success b' later).failure_count ≡ 0)
      × ((record_failure b' later).state ≡ opened)
      × ((record_failure b' later).opened_at ≡ later)
unfolding allow record_success record_failure
probe_decides b now later v o h =
    let b' = (allow b now).0 in
    ground (arith, append_sample_same b' later true, append_sample_same b' later false)
