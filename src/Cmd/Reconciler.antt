-- ===== src/Cmd/Reconciler.antt =====
-- cmd/reconciler/main.go: what the program does at each tick. What it logs is left out.
pub mod Calls
use go_sunabar_payments.Base.{List, [], ◌∷◌}
use go_sunabar_payments.Platform.Errors.{Result, ok, err}
use go_sunabar_payments.Platform.World.{World}
use go_sunabar_payments.Account.Entity.{VirtualAccount}
use go_sunabar_payments.Account.Repository.{list_all_virtual_accounts}
use go_sunabar_payments.Reconciliation.Reconcile.{reconcile}

-- `runOne`: an error is logged.
unfoldable pub run_one : VirtualAccount → World → World
run_one va w = (reconcile va.virtual_account_id w).1

-- The loop over the accounts.
unfoldable pub run_each : List VirtualAccount → World → World
run_each [] w = w
run_each (va ∷ vas) w = run_each vas (run_one va w)

abbrev pub listed : Result (List VirtualAccount) × World → Result (Unit {0}) × World
listed (ok vas, w) = (ok tt, run_each vas w)
listed (err e, w) = (err e, w)

-- `tick`.
unfoldable pub tick : World → Result (Unit {0}) × World
unfolding run_each
tick w = listed (list_all_virtual_accounts w)
