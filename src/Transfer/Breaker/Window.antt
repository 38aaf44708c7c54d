-- ===== src/Transfer/Breaker/Window.antt =====
-- The samples in the rolling window of the circuit breaker
-- (internal/modules/transfer/application/circuit_breaker.go), and what one call leaves of them.
pub mod Exact
use go_sunabar_payments.Base.{
  ℕ, ◌+◌, ◌≤◌, ◌<◌, ◌≡◌, refl, ap, ◌∙◌, sym, Bool, true, false, List, [], ◌∷◌, ◌++◌, arith, leb,
  ltb, ◌==◌, if◌then◌else◌, Bool-cases, inl, inr,
}
use go_sunabar_payments.Transfer.Breaker.{
  closed, opened, half_open, Config, Sample, CircuitBreaker, new_circuit_breaker, drop_old,
  append_sample, allow, record_success, record_failure, current_state, failure_rate_exceeded,
}
use go_sunabar_payments.Transfer.Breaker.Invariant.{
  Call, allows, successes, failures, asks_state, call, run, SameButSamples, append_sample_same,
}

-- The entries of a log that are within the window at `now`, in their order.
abbrev pub within : ℕ → ℕ → List Sample → List Sample
within now window [] = []
within now window (s ∷ log) =
    if leb now (s.at + window) then s ∷ within now window log else within now window log

-- The results that calls report, in their order.
abbrev pub results : List (ℕ × Call) → List Sample
results [] = []
results ((now, successes) ∷ calls) = record { at = now; success = true } ∷ results calls
results ((now, failures) ∷ calls) = record { at = now; success = false } ∷ results calls
results ((_, allows) ∷ calls) = results calls
results ((_, asks_state) ∷ calls) = results calls

-- The instants of the entries do not go back, and lie between the two bounds.
abbrev pub Ascending : ℕ → List Sample → ℕ → Type 0
Ascending lo [] hi = lo ≤ hi
Ascending lo (s ∷ log) hi = (lo ≤ s.at) × Ascending s.at log hi

-- So for the instants of calls.
abbrev pub InOrder : ℕ → List (ℕ × Call) → ℕ → Type 0
InOrder lo [] hi = lo ≤ hi
InOrder lo ((now, _) ∷ calls) hi = (lo ≤ now) × InOrder now calls hi

Ascending-le :
    (lo lo' : ℕ) (log : List Sample) (hi : ℕ)
    → lo ≤ lo'
    → Ascending lo' log hi
    → Ascending lo log hi
Ascending-le lo lo' [] hi h a = omega arith
Ascending-le lo lo' (s ∷ log) hi h a = (omega arith, a.1)

pub Ascending-append :
    (lo : ℕ) (log : List Sample) (hi now : ℕ) (r : Bool)
    → Ascending lo log hi
    → hi ≤ now
    → Ascending lo (log ++ record { at = now; success = r } ∷ []) now
Ascending-append lo [] hi now r a h = omega arith
Ascending-append lo (s ∷ log) hi now r a h = (a.0, Ascending-append s.at log hi now r a.1 h)

within_all :
    (now window lo : ℕ) (log : List Sample) (hi : ℕ)
    → Ascending lo log hi
    → now ≤ lo + window
    → within now window log ≡ log
within_all now window lo [] hi a h = refl
within_all now window lo (s ∷ log) hi a h = ground (arith, within_all now window s.at log hi a.1)

-- Of a log in order the loop drops just the entries that have left the window.
pub drop_old-eq-within :
    (now window lo : ℕ) (log : List Sample) (hi : ℕ)
    → Ascending lo log hi
    → drop_old now window log ≡ within now window log
unfolding drop_old
drop_old-eq-within now window lo [] hi a = refl
drop_old-eq-within now window lo (s ∷ log) hi a =
    ground
      (arith, drop_old-eq-within now window s.at log hi a.1, within_all now window s.at log hi a.1)

pub Ascending-within :
    (now window lo : ℕ) (log : List Sample) (hi : ℕ)
    → Ascending lo log hi
    → Ascending lo (within now window log) hi
Ascending-within now window lo [] hi a = a
Ascending-within now window lo (s ∷ log) hi a = ground (
  arith,
  Ascending-within now window s.at log hi a.1,
  Ascending-le lo s.at (within now window log) hi,
)

pub within-within :
    (t now window : ℕ) (log rest : List Sample)
    → t ≤ now
    → within now window (within t window log ++ rest) ≡ within now window (log ++ rest)
within-within t now window [] rest h = refl
within-within t now window (s ∷ log) rest h = ground (arith, within-within t now window log rest h)

drop_old_idem :
    (now window : ℕ) (log : List Sample)
    → drop_old now window (drop_old now window log) ≡ drop_old now window log
unfolding drop_old
drop_old_idem now window [] = refl
drop_old_idem now window (s ∷ log) = ground (arith, drop_old_idem now window log)

-- What a call leaves in the window.
abbrev pub after_call : CircuitBreaker → ℕ → Call → List Sample
after_call b now allows = b.samples
after_call b now asks_state = b.samples
after_call b now successes =
    drop_old now b.window_size (b.samples ++ record { at = now; success = true } ∷ [])
after_call b now failures =
    drop_old now b.window_size (b.samples ++ record { at = now; success = false } ∷ [])

samples-append_sample :
    (b : CircuitBreaker) (now : ℕ) (r : Bool)
    → 0 < b.window_size
    → let b' = append_sample b now r in
      (b'.window_size ≡ b.window_size)
      × (b'.samples
          ≡ drop_old now b.window_size (b.samples ++ record { at = now; success = r } ∷ []))
unfolding append_sample
samples-append_sample b now r w = ground arith

samples-failure_rate_exceeded :
    (b : CircuitBreaker) (now : ℕ)
    → drop_old now b.window_size b.samples ≡ b.samples
    → ((failure_rate_exceeded b now).0.samples ≡ b.samples)
      × ((failure_rate_exceeded b now).0.window_size ≡ b.window_size)
unfolding failure_rate_exceeded
samples-failure_rate_exceeded b now p = ground arith

samples-record_failure :
    (b : CircuitBreaker) (now : ℕ)
    → 0 < b.window_size
    → ((record_failure b now).samples ≡ after_call b now failures)
      × ((record_failure b now).window_size ≡ b.window_size)
unfolding record_failure
samples-record_failure b now w =
    let b' = append_sample b now false in
    let log = b.samples ++ record { at = now; success = false } ∷ [] in
    ground (
      arith,
      samples-append_sample b now false w,
      drop_old_idem now b.window_size log,
      samples-failure_rate_exceeded (record b' { failure_count = b'.failure_count + 1 }) now,
    )

pub samples-call :
    (b : CircuitBreaker) (now : ℕ) (c : Call)
    → 0 < b.window_size
    → ((call b now c).samples ≡ after_call b now c) × ((call b now c).window_size ≡ b.window_size)
unfolding allow record_success current_state
samples-call b now allows w = ground arith
samples-call b now asks_state w = ground arith
samples-call b now successes w = ground (arith, samples-append_sample b now true w)
samples-call b now failures w = samples-record_failure b now w
