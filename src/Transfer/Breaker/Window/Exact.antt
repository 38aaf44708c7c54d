-- ===== src/Transfer/Breaker/Window/Exact.antt =====
-- The rolling window of the circuit breaker
-- (internal/modules/transfer/application/circuit_breaker.go) against the whole log of results.
use mathlib.Core.List.{append-nil, append_assoc}
use go_sunabar_payments.Base.{
  ℕ, ◌≤◌, ◌<◌, ◌≡◌, refl, ap, ◌∙◌, Bool, true, false, List, [], ◌∷◌, ◌++◌, arith,
}
use go_sunabar_payments.Base.Int.{pos_part}
use go_sunabar_payments.Transfer.Breaker.{
  Config, Sample, CircuitBreaker, new_circuit_breaker, drop_old, record_success, record_failure,
}
use go_sunabar_payments.Transfer.Breaker.Invariant.{
  Call, allows, successes, failures, asks_state, call, run,
}
use go_sunabar_payments.Transfer.Breaker.Window.{
  within, results, Ascending, InOrder, Ascending-append, drop_old-eq-within, Ascending-within,
  within-within, samples-call,
}

InOrder-le :
    (lo lo' : ℕ) (calls : List (ℕ × Call)) (hi : ℕ)
    → lo ≤ lo'
    → InOrder lo' calls hi
    → InOrder lo calls hi
InOrder-le lo lo' [] hi h a = omega arith
InOrder-le lo lo' ((now, c) ∷ calls) hi h a = (omega arith, a.1)

-- The samples are the entries of the log within the window at the last result, at `t`.
record Tracks (b : CircuitBreaker) (log : List Sample) (t : ℕ) : Type 0 where
  open_window : 0 < b.window_size
  ascending : Ascending 0 log t
  exact : b.samples ≡ within t b.window_size log

module _ (b : CircuitBreaker) (log : List Sample) (t now : ℕ) (r : Bool) (k : Tracks b log t)
    (h : t ≤ now) where
  result_within :
      drop_old now b.window_size (b.samples ++ record { at = now; success = r } ∷ [])
      ≡ within now b.window_size (log ++ record { at = now; success = r } ∷ [])
  result_within = rw k.exact (
      drop_old-eq-within now b.window_size 0
        (within t b.window_size log ++ record { at = now; success = r } ∷ []) now
        (Ascending-append 0 (within t b.window_size log) t now r
          (Ascending-within t b.window_size 0 log t k.ascending) h)
      ∙ within-within t now b.window_size log (record { at = now; success = r } ∷ []) h)

  Tracks-result :
      (b' : CircuitBreaker)
      → b'.window_size ≡ b.window_size
      → b'.samples ≡ drop_old now b.window_size (b.samples ++ record { at = now; success = r } ∷ [])
      → Tracks b' (log ++ record { at = now; success = r } ∷ []) now
  Tracks-result b' w e = record {
    open_window = rw w k.open_window;
    ascending = Ascending-append 0 log t now r k.ascending h;
    exact = rw (w, e) result_within;
  }

Tracks-run :
    (b : CircuitBreaker) (log : List Sample) (t : ℕ) (calls : List (ℕ × Call)) (hi : ℕ)
    → Tracks b log t
    → InOrder t calls hi
    → (t' : ℕ) × Tracks (run b calls) (log ++ results calls) t' × (t' ≤ hi)
unfolding run
Tracks-run b log t [] hi k o = (t, rw append-nil k, o)
Tracks-run b log t ((now, allows) ∷ calls) hi k o =
    let (s, w) = samples-call b now allows k.open_window in
    Tracks-run (call b now allows) log t calls hi
      (record {
        open_window = rw w k.open_window;
        ascending = k.ascending;
        exact = rw (s, w) k.exact;
      })
      (InOrder-le t now calls hi o.0 o.1)
Tracks-run b log t ((now, asks_state) ∷ calls) hi k o =
    let (s, w) = samples-call b now asks_state k.open_window in
    Tracks-run (call b now asks_state) log t calls hi
      (record {
        open_window = rw w k.open_window;
        ascending = k.ascending;
        exact = rw (s, w) k.exact;
      })
      (InOrder-le t now calls hi o.0 o.1)
Tracks-run b log t ((now, successes) ∷ calls) hi k o =
    let (s, w) = samples-call b now successes k.open_window in
    let e : Sample = record { at = now; success = true } in
    rw (← append_assoc log (e ∷ []) (results calls)) (
      Tracks-run (call b now successes) (log ++ e ∷ []) now calls hi
        (Tracks-result b log t now true k o.0 (call b now successes) w s) o.1)
Tracks-run b log t ((now, failures) ∷ calls) hi k o =
    let (s, w) = samples-call b now failures k.open_window in
    let e : Sample = record { at = now; success = false } in
    rw (← append_assoc log (e ∷ []) (results calls)) (
      Tracks-run (call b now failures) (log ++ e ∷ []) now calls hi
        (Tracks-result b log t now false k o.0 (call b now failures) w s) o.1)

window-run :
    (b : CircuitBreaker) (calls : List (ℕ × Call))
    → 0 < b.window_size
    → (run b calls).window_size ≡ b.window_size
unfolding run
window-run b [] w = refl
window-run b ((now, c) ∷ calls) w =
    let same = (samples-call b now c w).1 in window-run (call b now c) calls (rw same w) ∙ same

exact_from :
    (b : CircuitBreaker) (calls : List (ℕ × Call)) (window t now : ℕ)
    → b.window_size ≡ window
    → b.samples ≡ []
    → 0 < window
    → InOrder 0 calls t
    → t ≤ now
    → ((record_success (run b calls) now).samples
        ≡ within now window (results calls ++ record { at = now; success = true } ∷ []))
      × ((record_failure (run b calls) now).samples
          ≡ within now window (results calls ++ record { at = now; success = false } ∷ []))
exact_from b calls window t now size fresh w o h =
    let w' : 0 < b.window_size = rw size w in
    let same : (run b calls).window_size ≡ window = window-run b calls w' ∙ size in
    let (t', k, le) =
      Tracks-run b [] 0 calls t
        (record { open_window = w'; ascending = omega arith; exact = fresh }) o in
    let later : t' ≤ now = omega arith in
    let after = run b calls in
    (
      (samples-call after now successes k.open_window).0
          ∙ result_within after (results calls) t' now true k later
          ∙ ap (λ w. within now w (results calls ++ record { at = now; success = true } ∷ [])) same,
      (samples-call after now failures k.open_window).0
          ∙ result_within after (results calls) t' now false k later
          ∙ ap (λ w. within now w (results calls ++ record { at = now; success = false } ∷ []))
              same,
    )

-- With a window that is on, and calls whose instants do not go back, the samples that a breaker
-- holds after a result are exactly the results of its whole life that are still in the window.
pub window_exact :
    (cfg : Config) (calls : List (ℕ × Call)) (t now : ℕ)
    → 0 < pos_part cfg.window_size
    → InOrder 0 calls t
    → t ≤ now
    → let b = run (new_circuit_breaker cfg) calls in
      let window = pos_part cfg.window_size in
      ((record_success b now).samples
        ≡ within now window (results calls ++ record { at = now; success = true } ∷ []))
      × ((record_failure b now).samples
          ≡ within now window (results calls ++ record { at = now; success = false } ∷ []))
unfolding new_circuit_breaker
window_exact cfg calls t now w o h =
    exact_from (new_circuit_breaker cfg) calls (pos_part cfg.window_size) t now refl refl w o h
