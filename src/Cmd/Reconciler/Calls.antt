-- ===== src/Cmd/Reconciler/Calls.antt =====
-- How often the bank is asked in a tick of cmd/reconciler/main.go.
use go_sunabar_payments.Base.{◌+◌, ◌-◌, ◌≡◌, refl, ap, ◌∙◌, List, [], ◌∷◌, String, length, arith}
use go_sunabar_payments.Platform.Errors.{Result, ok, err}
use go_sunabar_payments.Platform.Bank.{Transaction}
use go_sunabar_payments.Platform.World.{World, ◌>>=◌, on_error, now}
use go_sunabar_payments.Platform.Sql.Atomicity.{do_tx-Quiet}
use go_sunabar_payments.Account.Entity.{VirtualAccount}
use go_sunabar_payments.Account.Repository.{list_all_virtual_accounts}
use go_sunabar_payments.Reconciliation.Reconcile.{
  lookback, reconcile_body, list_transactions, reconcile,
}
use go_sunabar_payments.Reconciliation.Reconcile.Effects.{Keeps-reconcile_body}
use go_sunabar_payments.Cmd.Reconciler.{run_one, run_each, tick}

reconcile-calls : (va : String) (w : World) → (reconcile va w).1.calls ≡ w.calls + 1
unfolding reconcile list_transactions now on_error ◌>>=◌
reconcile-calls va w =
    let at = w.outside.clock w.ticks in
    go (w.outside.list_transactions w.calls va (at - lookback) at) refl
  where
    go :
        (r : Result (List Transaction))
        → (let at = w.outside.clock w.ticks in
            w.outside.list_transactions w.calls va (at - lookback) at ≡ r)
        → (reconcile va w).1.calls ≡ w.calls + 1
    go (ok items) q =
        rw q
          (do_tx-Quiet (reconcile_body va (w.outside.clock w.ticks) items)
            (record w { ticks = w.ticks + 1; calls = w.calls + 1 })
            (Keeps-reconcile_body va (w.outside.clock w.ticks) items)).calls
    go (err e) q = rw q refl

run_each-calls :
    (vas : List VirtualAccount) (w : World) → (run_each vas w).calls ≡ w.calls + length vas
unfolding run_each run_one
run_each-calls [] w = omega arith
run_each-calls (va ∷ vas) w =
    run_each-calls vas (reconcile va.virtual_account_id w).1
    ∙ ap (λ n. n + length vas) (reconcile-calls va.virtual_account_id w)
    ∙ omega arith

-- When the accounts are read, the bank is asked once for each of them, whatever becomes of the others.
pub tick-calls :
    (w : World) (vas : List VirtualAccount)
    → (list_all_virtual_accounts w).0 ≡ ok vas
    → ((tick w).0 ≡ ok tt) × ((tick w).1.calls ≡ (list_all_virtual_accounts w).1.calls + length vas)
unfolding tick
tick-calls w vas h = rw h (refl, run_each-calls vas (list_all_virtual_accounts w).1)
