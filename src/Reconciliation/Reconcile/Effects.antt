-- ===== src/Reconciliation/Reconcile/Effects.antt =====
-- A reconciliation (internal/modules/reconciliation/application/usecase.go) is done whole or not at
-- all.
use go_sunabar_payments.Base.{
  ℕ, ◌+◌, ◌-◌, ◌≡◌, refl, ◌∙◌, List, [], ◌∷◌, Option, none, some, String,
}
use go_sunabar_payments.Platform.Errors.{Error, Result, ok, err}
use go_sunabar_payments.Platform.Bank.{Transaction}
use go_sunabar_payments.Platform.World.{World, ◌>>=◌, on_error, now}
use go_sunabar_payments.Platform.Sql.Keeps.{
  Frame-refl, Frame-trans, Keeps, keeps_rules, Keeps-bind, Keeps-pure,
}
use go_sunabar_payments.Platform.Sql.Atomicity.{do_tx_err}
use go_sunabar_payments.Outbox.Publisher.Effect.{Keeps-publish}
use go_sunabar_payments.Reconciliation.Invoice.{Invoice, IncomingTransaction}
use go_sunabar_payments.Reconciliation.Repository.{
  update_invoice, scan_invoice, find_by_virtual_account_id, insert_if_not_exists,
  update_matched_invoice,
}
use go_sunabar_payments.Reconciliation.Reconcile.{
  lookback, publish_state_event, parse_date, matched, apply_incoming, apply_incomings,
  invoice_or_none, lookup_invoice, close_invoice, reconcile_body, list_transactions, reconcile,
}

Keeps-update_invoice : (i : Invoice) → Keeps (update_invoice i)
unfolding update_invoice
Keeps-update_invoice i = search keeps_rules

Keeps-update_matched_invoice :
    (id invoice_id : String) → Keeps (update_matched_invoice id invoice_id)
unfolding update_matched_invoice
Keeps-update_matched_invoice id invoice_id = search keeps_rules

Keeps-insert_if_not_exists : (t : IncomingTransaction) → Keeps (insert_if_not_exists t)
unfolding insert_if_not_exists
Keeps-insert_if_not_exists t = search keeps_rules

Keeps-find_by_virtual_account_id : (va : String) → Keeps (find_by_virtual_account_id va)
unfolding find_by_virtual_account_id scan_invoice
Keeps-find_by_virtual_account_id va = search keeps_rules

Keeps-publish_state_event : (i : Invoice) → Keeps (publish_state_event i)
unfolding publish_state_event
Keeps-publish_state_event i = search (keeps_rules, Keeps-publish)

Keeps-parse_date : (s : String) → Keeps (parse_date s)
unfolding parse_date
Keeps-parse_date s = record { at = Frame-refl }

Keeps-matched :
    (at : ℕ) (id : String) (item : Transaction) (acc : Option Invoice × ℕ)
    → Keeps (matched at id item acc)
unfolding matched
Keeps-matched at id item (none, n) = search keeps_rules
Keeps-matched at id item (some inv, n) = search (keeps_rules, Keeps-update_matched_invoice)

Keeps-apply_incoming :
    (va : String) (at : ℕ) (item : Transaction) (acc : Option Invoice × ℕ)
    → Keeps (apply_incoming va at item acc)
unfolding apply_incoming
Keeps-apply_incoming va at item acc =
    search (keeps_rules, Keeps-insert_if_not_exists, Keeps-parse_date, Keeps-matched) depth 10

Keeps-apply_incomings :
    (va : String) (at : ℕ) (items : List Transaction) (acc : Option Invoice × ℕ)
    → Keeps (apply_incomings va at items acc)
unfolding apply_incomings
Keeps-apply_incomings va at [] acc = Keeps-pure acc
Keeps-apply_incomings va at (item ∷ items) acc =
    Keeps-bind _ _ (Keeps-apply_incoming va at item acc)
      (λ acc'. Keeps-apply_incomings va at items acc')

Keeps-invoice_or_none : (r : Result Invoice) → Keeps (invoice_or_none r)
unfolding invoice_or_none
Keeps-invoice_or_none (ok inv) = search keeps_rules
Keeps-invoice_or_none (err e) = search keeps_rules

Keeps-lookup_invoice : (va : String) → Keeps (lookup_invoice va)
unfolding lookup_invoice
Keeps-lookup_invoice va = record {
  at = λ w.
      let (r, w') = find_by_virtual_account_id va w in
      Frame-trans ((Keeps-find_by_virtual_account_id va).at w) ((Keeps-invoice_or_none r).at w');
}

Keeps-close_invoice : (acc : Option Invoice × ℕ) → Keeps (close_invoice acc)
unfolding close_invoice
Keeps-close_invoice (none, n) = search keeps_rules
Keeps-close_invoice (some inv, n) =
    search (keeps_rules, Keeps-update_invoice, Keeps-publish_state_event) depth 8

pub Keeps-reconcile_body :
    (va : String) (at : ℕ) (items : List Transaction) → Keeps (reconcile_body va at items)
unfolding reconcile_body
Keeps-reconcile_body va at items =
    search (keeps_rules, Keeps-lookup_invoice, Keeps-apply_incomings, Keeps-close_invoice) depth 8

module _ (va : String) (w : World) (x : Error) (alone : w.others ≡ []) where
  listed :
      (r : Result (List Transaction))
      → (let at = w.outside.clock w.ticks in
          w.outside.list_transactions w.calls va (at - lookback) at ≡ r)
      → (reconcile va w).0 ≡ err x
      → (reconcile va w).1.committed ≡ w.committed
  unfolding reconcile list_transactions now on_error ◌>>=◌
  listed (ok items) q h = rw q (
      do_tx_err (reconcile_body va (w.outside.clock w.ticks) items)
        (record w { ticks = w.ticks + 1; calls = w.calls + 1 })
        (Keeps-reconcile_body va (w.outside.clock w.ticks) items) (rw q at h)
      ∙ rw alone refl)
  listed (err e) q h = rw q refl

-- A reconciliation that returns an error has changed no table, when no other process commits in
-- between: no payment is taken in without being counted on its invoice.
pub failed_reconciliation :
    (va : String) (w : World) {x : Error}
    → w.others ≡ []
    → (reconcile va w).0 ≡ err x
    → (reconcile va w).1.committed ≡ w.committed
failed_reconciliation va w {x} alone h =
    let at = w.outside.clock w.ticks in
    listed va w x alone (w.outside.list_transactions w.calls va (at - lookback) at) refl h
