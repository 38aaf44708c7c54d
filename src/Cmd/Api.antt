-- ===== src/Cmd/Api.antt =====
-- cmd/api/main.go: the endpoints that the program adds to those of the modules.
use Prim.Native.String.{◌++◌ as str_append}
use go_sunabar_payments.Base.{ℕ, List, String}
use go_sunabar_payments.Base.Int.{ℤ}
use go_sunabar_payments.Platform.Errors.{Result, ok, err, error_text}
use go_sunabar_payments.Platform.World.{World}
use go_sunabar_payments.Platform.Sql.{statement}
use go_sunabar_payments.Observability.Metrics.{Metrics, Outcome, snapshot, collect_from_db}

-- What is written: a status with a text, or with the metrics.
pub data Answer : Type 0 where
  plain : ℕ → String → Answer
  metrics_shown : List (String × ℤ) → Answer

abbrev pinged : Result (Unit {0}) × World → Answer × World
pinged (ok _, w) = (plain 200 "ok", w)
pinged (err e, w) = (plain 503 "db unavailable", w)

-- `healthzHandler`; a ping is a statement.
unfoldable pub healthz_handler : World → Answer × World
healthz_handler w = pinged (statement w)

abbrev collected : Outcome → (Answer × Metrics) × World
collected ((ok _, m), w) = ((metrics_shown (snapshot m), m), w)
collected ((err e, m), w) = ((plain 500 (str_append "collect failed: " (error_text e)), m), w)

-- `metricsJSONHandler`.
unfoldable pub metrics_json_handler : Metrics → World → (Answer × Metrics) × World
metrics_json_handler m w = collected (collect_from_db m w)
