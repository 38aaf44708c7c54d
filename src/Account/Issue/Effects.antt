-- ===== src/Account/Issue/Effects.antt =====
-- What issuing a virtual account leaves behind
-- (internal/modules/account/application/usecase.go).

use go_sunabar_payments.Base.{
  ℕ, ◌+◌, ◌≡◌, refl, sym, ap, ◌∙◌, ◌⊎◌, inl, inr, false, [], ◌∷◌, ◌++◌, String, arith,
}
use go_sunabar_payments.Platform.Errors.{Error, Result, ok, err}
use go_sunabar_payments.Platform.Bank.{VirtualAccountRequest}
use go_sunabar_payments.Platform.Bank as Bank
use go_sunabar_payments.Platform.World.{
  Db, Outside, World, continue, pure, ◌>>=◌, on_error, now, new_id,
}
use go_sunabar_payments.Platform.World.Inversion.{bind_ok}
use go_sunabar_payments.Platform.Sql.{exec_tx, do_tx, interfered}
use go_sunabar_payments.Platform.Sql.Keeps.{
  Keeps, Keeps-bind, Keeps-pure, Keeps-on_error, Keeps-exec_tx, working-statement,
}
use go_sunabar_payments.Platform.Sql.Atomicity.{
  entered, do_tx_ok, do_tx_err, do_tx-Quiet, entered-interfered, outside-entered,
}
use go_sunabar_payments.Account.Entity.{VirtualAccount}
use go_sunabar_payments.Account.Repository.{
  row_of, has_virtual_account, insert_virtual_account_row, insert_virtual_account,
}
use go_sunabar_payments.Account.Issue.{
  IssueVirtualAccountCommand, request_of, issue_at_bank, issued_as, store_issued,
  issue_virtual_account,
}

Keeps-insert_virtual_account : (va : VirtualAccount) → Keeps (insert_virtual_account va)
unfolding insert_virtual_account
Keeps-insert_virtual_account va =
    Keeps-bind _ _
      (Keeps-on_error _ _ (record {
        at = λ w.
            (Keeps-exec_tx (insert_virtual_account_row (row_of w.outside.format_date va))).at w;
      }))
      (λ n. Keeps-pure tt)

insert_va_ok :
    (va : VirtualAccount) (w : World)
    → (insert_virtual_account va w).0 ≡ ok tt
    → (has_virtual_account (row_of w.outside.format_date va) w.working.virtual_accounts ≡ false)
      × ((insert_virtual_account va w).1.working ≡ record w.working {
        virtual_accounts = w.working.virtual_accounts ++ row_of w.outside.format_date va ∷ [];
      })
unfolding insert_virtual_account insert_virtual_account_row exec_tx on_error ◌>>=◌
insert_va_ok va w h = ground (arith, working-statement w)

abbrev pub with_row : VirtualAccount → (ℕ → String) → Db → Db
with_row va format_date db = record db {
  virtual_accounts = db.virtual_accounts ++ row_of format_date va ∷ [];
}

-- The account that is stored for an answer of the bank: as the only change, its row is added.
abbrev pub StoredAs :
    IssueVirtualAccountCommand → Bank.VirtualAccount → World → VirtualAccount → World → Type 0
StoredAs cmd res w va w' =
    (id : String) × (at : ℕ) × (va ≡ issued_as id cmd res at)
    × (w'.committed ≡ with_row va w.outside.format_date (interfered w))

-- One request has been made, under the next identifier as its key.
abbrev pub AskedOnce : IssueVirtualAccountCommand → World → World → Type 0
AskedOnce cmd w w' = w'.issues ≡ w.issues ++ request_of (w.outside.fresh_id w.ids) cmd ∷ []

store_ok :
    (cmd : IssueVirtualAccountCommand) (res : Bank.VirtualAccount) (w : World) {va : VirtualAccount}
    → (store_issued cmd res w).0 ≡ ok va
    → StoredAs cmd res w va (store_issued cmd res w).1
unfolding store_issued new_id now pure
store_ok cmd res w {va} h =
    let (id, q0, h0, e0) = bind_ok new_id _ w h in
    let w1 = (new_id w).1 in
    let (at, q1, h1, e1) = bind_ok now _ w1 h0 in
    let w2 = (now w1).1 in
    let d = issued_as id cmd res at in
    let (u, q2, h2, e2) = bind_ok (do_tx (insert_virtual_account d)) _ w2 h1 in
    let (q3, c) = do_tx_ok (insert_virtual_account d) w2 (Keeps-insert_virtual_account d) q2 in
    let (fresh, written) = insert_va_ok d (entered w2) q3 in
    (
      id,
      at,
      same h2,
      ap (λ (x : Result VirtualAccount × World). x.1.committed) (e0 ∙ e1 ∙ e2)
          ∙ c
          ∙ written
          ∙ ap (with_row d (entered w2).outside.format_date) (entered-interfered w2)
          ∙ ap (λ (o : Outside). with_row d o.format_date (interfered w2)) (outside-entered w2)
          ∙ ap (λ (v : VirtualAccount). with_row v w.outside.format_date (interfered w))
              (sym (same h2)),
    )
  where
    same : {a b : VirtualAccount} → ok a ≡ ok b → b ≡ a
    same q = cc

-- The value is passed on after the transaction, which decides the rest.
passed_on :
    {A : Type 0} (r : Result (Unit {0})) (v : World) (a : A) → (continue r (λ u. pure a) v).1 ≡ v
unfolding pure
passed_on (ok u) v a = refl
passed_on (err e) v a = refl

passed_err :
    {A : Type 0} (r : Result (Unit {0})) (v : World) (a : A) {x : Error}
    → (continue r (λ u. pure a) v).0 ≡ err x
    → r ≡ err x
unfolding pure
passed_err (ok u) v a h = cc
passed_err (err e) v a h = ap (λ (l : Result _). to_unit l) h
  where
    to_unit : {A : Type 0} → Result A → Result (Unit {0})
    to_unit (ok a) = ok tt
    to_unit (err e) = err e

module _ (cmd : IssueVirtualAccountCommand) (res : Bank.VirtualAccount) (w : World) where
  -- The world in which the transaction is begun, and what it stores.
  abbrev before_tx : World
  before_tx = record w { ids = w.ids + 1; ticks = w.ticks + 1 }

  abbrev stored : VirtualAccount
  stored = issued_as (w.outside.fresh_id w.ids) cmd res (w.outside.clock w.ticks)

  store-issues : (store_issued cmd res w).1.issues ≡ w.issues
  unfolding store_issued new_id now ◌>>=◌
  store-issues =
      let out = do_tx (insert_virtual_account stored) before_tx in
      ap (λ (v : World). v.issues) (passed_on out.0 out.1 stored)
      ∙ (do_tx-Quiet (insert_virtual_account stored) before_tx
          (Keeps-insert_virtual_account stored)).issues

  store_err :
      {x : Error}
      → (store_issued cmd res w).0 ≡ err x
      → (store_issued cmd res w).1.committed ≡ interfered w
  unfolding store_issued new_id now ◌>>=◌
  store_err h =
      let out = do_tx (insert_virtual_account stored) before_tx in
      ap (λ (v : World). v.committed) (passed_on out.0 out.1 stored)
      ∙ do_tx_err (insert_virtual_account stored) before_tx (Keeps-insert_virtual_account stored)
          (passed_err out.0 out.1 stored h)

-- How a run ends. It has asked the bank once, under a key that it has drawn for itself; and either it
-- returns an error and leaves the tables as they were or as others have left them, or it returns the
-- account that the bank has answered with and adds its row.
abbrev pub Issued : IssueVirtualAccountCommand → World → Result VirtualAccount × World → Type 0
Issued cmd w (err e, w') =
    AskedOnce cmd w w' × ((w'.committed ≡ w.committed) ⊎ (w'.committed ≡ interfered w))
Issued cmd w (ok va, w') =
    AskedOnce cmd w w'
    × (res : Bank.VirtualAccount) × (w.outside.issue_virtual_account w.calls
          (request_of (w.outside.fresh_id w.ids) cmd)
        ≡ ok res)
    × StoredAs cmd res w va w'

-- The world when the bank has answered.
abbrev asked : IssueVirtualAccountCommand → World → World
asked cmd w = record w {
  ids = w.ids + 1;
  calls = w.calls + 1;
  issues = w.issues ++ request_of (w.outside.fresh_id w.ids) cmd ∷ [];
}

stored-Issued :
    (cmd : IssueVirtualAccountCommand) (res : Bank.VirtualAccount) (w : World)
    → w.outside.issue_virtual_account w.calls (request_of (w.outside.fresh_id w.ids) cmd) ≡ ok res
    → Issued cmd w (store_issued cmd res (asked cmd w))
stored-Issued cmd res w q = go (store_issued cmd res (asked cmd w)).0 refl
  where
    go :
        (r : Result VirtualAccount)
        → (store_issued cmd res (asked cmd w)).0 ≡ r
        → Issued cmd w (r, (store_issued cmd res (asked cmd w)).1)
    go (ok va) e = (store-issues cmd res (asked cmd w), res, q, store_ok cmd res (asked cmd w) e)
    go (err x) e = (store-issues cmd res (asked cmd w), inr (store_err cmd res (asked cmd w) e))

-- Whatever fails and whatever others commit, a run of the use case asks the bank for an account once,
-- under a key of its own; it returns an error and writes nothing, or returns the account of the bank's
-- answer and adds its row, in one commit. An account that is issued but not stored is not asked for
-- again under its key.
pub issue-Issued :
    (cmd : IssueVirtualAccountCommand) (w : World) → Issued cmd w (issue_virtual_account cmd w)
unfolding issue_virtual_account issue_at_bank new_id on_error ◌>>=◌
issue-Issued cmd w =
    go (w.outside.issue_virtual_account w.calls (request_of (w.outside.fresh_id w.ids) cmd)) refl
  where
    go :
        (r : Result Bank.VirtualAccount)
        → w.outside.issue_virtual_account w.calls (request_of (w.outside.fresh_id w.ids) cmd) ≡ r
        → Issued cmd w (issue_virtual_account cmd w)
    go (ok res) q = rw q (stored-Issued cmd res w q)
    go (err e) q = rw q (refl, inl refl)
