-- ===== src/Examples/Breakers.antt =====
-- The circuit breaker through an outage of the bank.
use go_sunabar_payments.Base.{
  ℕ, ◌+◌, ◌*◌, ◌≤◌, ◌≡◌, refl, ◌≢◌, true, false, List, [], ◌∷◌, ◌++◌, none, arith,
}
use go_sunabar_payments.Transfer.Breaker.{
  closed, opened, default_config, CircuitBreaker, new_circuit_breaker, allow, append_sample,
  record_success, record_failure, second,
}
use go_sunabar_payments.Transfer.Breaker.Invariant.{
  Call, allows, successes, failures, run, IsValid, breaker-IsValid,
}
use go_sunabar_payments.Transfer.Breaker.Rejection.{admitted, open_rejects_all, probes_bounded}
use go_sunabar_payments.Transfer.Breaker.Tripping.{probe_decides}
use go_sunabar_payments.Transfer.Breaker.Window.{within, results}
use go_sunabar_payments.Transfer.Breaker.Window.Exact.{window_exact}
use go_sunabar_payments.Examples.Data.{breaker}

abbrev outage : List (ℕ × Call)
outage = (1, allows) ∷ (2, failures) ∷ (3, failures) ∷ (4, failures) ∷ []

breaker-IsValid_example : IsValid (run (new_circuit_breaker default_config) outage)
breaker-IsValid_example = breaker-IsValid default_config outage

abbrev tripped : CircuitBreaker
tripped = record breaker { state = opened; opened_at = 5; failure_count = 3 }

not_closed : opened ≢ closed
not_closed h = cc

tripped-IsValid : IsValid tripped
tripped-IsValid = ground (arith, not_closed)

breaker_fresh-IsValid : IsValid breaker
breaker_fresh-IsValid = ground arith

open_rejects_all_example :
    (admitted tripped ((6, allows) ∷ (7, successes) ∷ []) ≡ 0)
    × ((run tripped ((6, allows) ∷ (7, successes) ∷ [])).state ≡ opened)
open_rejects_all_example =
    open_rejects_all tripped ((6, allows) ∷ (7, successes) ∷ []) refl
      (omega arith, (omega arith, tt))

probes_bounded_example : admitted tripped ((40 * second, allows) ∷ (41 * second, allows) ∷ []) ≤ 1
probes_bounded_example =
    probes_bounded tripped ((40 * second, allows) ∷ (41 * second, allows) ∷ []) tripped-IsValid
      not_closed (tt, (tt, tt))

abbrev counted_once : CircuitBreaker
counted_once =
    let b' = append_sample breaker 1 false in record b' { failure_count = b'.failure_count + 1 }

abbrev probing : CircuitBreaker
probing = (allow tripped (40 * second)).0

probe_decides_example :
    ((allow tripped (40 * second)).1 ≡ none)
    × ((record_success probing (41 * second)).state ≡ closed)
    × ((record_success probing (41 * second)).failure_count ≡ 0)
    × ((record_failure probing (41 * second)).state ≡ opened)
    × ((record_failure probing (41 * second)).opened_at ≡ 41 * second)
probe_decides_example =
    probe_decides tripped (40 * second) (41 * second) tripped-IsValid refl (omega arith)

abbrev after_outage : CircuitBreaker
after_outage = run (new_circuit_breaker default_config) outage

window_exact_example :
    ((record_success after_outage 9).samples
      ≡ within 9 (30 * second) (results outage ++ record { at = 9; success = true } ∷ []))
    × ((record_failure after_outage 9).samples
        ≡ within 9 (30 * second) (results outage ++ record { at = 9; success = false } ∷ []))
window_exact_example =
    window_exact default_config outage 4 9 (omega arith)
      (omega arith, (omega arith, (omega arith, (omega arith, omega arith)))) (omega arith)
