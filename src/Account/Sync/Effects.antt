-- ===== src/Account/Sync/Effects.antt =====
-- What taking over the accounts of the bank does to the tables
-- (internal/modules/account/application/usecase.go).
use mathlib.Core.Path.{subst}
use go_sunabar_payments.Base.{
  ℕ, ◌+◌, ◌≡◌, refl, sym, ap, ◌∙◌, false, List, [], ◌∷◌, some, String, eq_refl, arith,
}
use go_sunabar_payments.Platform.Errors.{Error, Result, ok, err, wrapped}
use go_sunabar_payments.Platform.Bank as Bank
use go_sunabar_payments.Platform.World.{Db, World, pure, ◌>>=◌, on_error, now, new_id}
use go_sunabar_payments.Platform.World.Inversion.{bind_ok, on_error_ok}
use go_sunabar_payments.Platform.Sql.{exec_tx, interfered}
use go_sunabar_payments.Platform.Sql.Keeps.{
  Keeps, Keeps-bind, Keeps-pure, Keeps-new_id, Keeps-now, keeps_rules, working-statement,
}
use go_sunabar_payments.Platform.Sql.Atomicity.{entered, do_tx_ok, do_tx_err, entered-interfered}
use go_sunabar_payments.Account.Entity.{Account}
use go_sunabar_payments.Account.Repository.{
  overwritten, has_id, upsert_rows, upsert_row, upsert_by_account_id, account_with,
}
use go_sunabar_payments.Account.Repository.Rows.{account_with-upsert_rows, has_id-upsert_known}
use go_sunabar_payments.Account.Sync.{
  get_accounts, account_from, upsert_each, upsert_accounts, sync_accounts,
}

Keeps-upsert_by_account_id : (a : Account) → Keeps (upsert_by_account_id a)
unfolding upsert_by_account_id
Keeps-upsert_by_account_id a = search keeps_rules

Keeps-upsert_each : (at : ℕ) (accounts : List Bank.Account) → Keeps (upsert_each at accounts)
unfolding upsert_each
Keeps-upsert_each at [] = Keeps-pure []
Keeps-upsert_each at (a ∷ rest) = Keeps-bind _ _ Keeps-new_id (λ id.
    Keeps-bind _ _ (Keeps-upsert_by_account_id (account_from id a at))
      (λ u. Keeps-bind _ _ (Keeps-upsert_each at rest) (λ accounts. Keeps-pure _)))

Keeps-upsert_accounts : (accounts : List Bank.Account) → Keeps (upsert_accounts accounts)
unfolding upsert_accounts
Keeps-upsert_accounts accounts = Keeps-bind _ _ Keeps-now (λ at. Keeps-upsert_each at accounts)

upsert_ok :
    (a : Account) (w : World)
    → (upsert_by_account_id a w).0 ≡ ok tt
    → (upsert_by_account_id a w).1.working
      ≡ record w.working { accounts = upsert_rows a w.working.accounts }
unfolding upsert_by_account_id upsert_row exec_tx on_error ◌>>=◌
upsert_ok a w h = ground (arith, working-statement w)

-- The rows after the upserts, one by one.
abbrev pub upsert_all : List Account → List Account → List Account
upsert_all [] rows = rows
upsert_all (a ∷ as') rows = upsert_all as' (upsert_rows a rows)

-- One account for each of the bank's, in its order, with the columns of the bank.
abbrev pub Mirrors : ℕ → List Bank.Account → List Account → Type 0
Mirrors at [] [] = Unit
Mirrors at [] (d ∷ ds) = ⊥
Mirrors at (a ∷ rest) [] = ⊥
Mirrors at (a ∷ rest) (d ∷ ds) = ((id : String) × (d ≡ account_from id a at)) × Mirrors at rest ds

abbrev EachWritten :
    ℕ → List Bank.Account → World → List Account → Result (List Account) × World → Type 0
EachWritten at accounts w ds (r, w') =
    (r ≡ ok ds)
    × Mirrors at accounts ds
    × (w'.working ≡ record w.working { accounts = upsert_all ds w.working.accounts })

each_written :
    (at : ℕ) (accounts : List Bank.Account) (w : World) {out : List Account}
    → (upsert_each at accounts w).0 ≡ ok out
    → (ds : List Account) × EachWritten at accounts w ds (upsert_each at accounts w)
unfolding upsert_each new_id pure
each_written at [] w h = ([], (refl, tt, refl))
each_written at (a ∷ rest) w h =
    let (id, q0, h0, e0) = bind_ok new_id _ w h in
    let d = account_from id a at in
    let (u, q1, h1, e1) = bind_ok (upsert_by_account_id d) _ (new_id w).1 h0 in
    let w2 = (upsert_by_account_id d (new_id w).1).1 in
    let (tail, q2, h2, e2) = bind_ok (upsert_each at rest) _ w2 h1 in
    let (ds, (r, mirrors, written)) = each_written at rest w2 q2 in
    let stored = upsert_ok d (new_id w).1 q1 in
    (
      d ∷ ds,
      (
        ap (λ (x : Result (List Account) × World). x.0) (e0 ∙ e1 ∙ e2)
            ∙ ap (λ (l : List Account). ok (d ∷ l)) (same (sym q2 ∙ r)),
        ((id, refl), mirrors),
        ap (λ (x : Result (List Account) × World). x.1.working) (e0 ∙ e1 ∙ e2)
            ∙ written
            ∙ ap (λ (db : Db). record db { accounts = upsert_all ds db.accounts }) stored,
      ),
    )
  where
    same : {a b : List Account} → ok a ≡ ok b → a ≡ b
    same q = cc

-- The accounts that a run has returned mirror those of the bank, and are what it has upserted.
abbrev pub Synced : World → List Account → World → Type 0
Synced w ds w' =
    (accounts : List Bank.Account) × (at : ℕ) × (w.outside.get_accounts w.calls ≡ ok accounts)
    × Mirrors at accounts ds
    × (w'.committed ≡ record (interfered w) { accounts = upsert_all ds (interfered w).accounts })

body_ok :
    (accounts : List Bank.Account) (w : World) {ds : List Account}
    → (upsert_accounts accounts w).0 ≡ ok ds
    → (at : ℕ) × Mirrors at accounts ds
      × ((upsert_accounts accounts w).1.working
          ≡ record w.working { accounts = upsert_all ds w.working.accounts })
unfolding upsert_accounts now
body_ok accounts w {ds} h =
    let (at, q, h1, e) = bind_ok now _ w h in
    let (ds', (r, mirrors, written)) = each_written at accounts (now w).1 h1 in
    (
      at,
      subst (λ (l : List Account). Mirrors at accounts l) (same (sym r ∙ h1)) mirrors,
      ap (λ (x : Result (List Account) × World). x.1.working) e
          ∙ written
          ∙ ap
              (λ (l : List Account). record w.working {
                accounts = upsert_all l w.working.accounts;
              })
              (same (sym r ∙ h1)),
    )
  where
    same : {a b : List Account} → ok a ≡ ok b → a ≡ b
    same q = cc

-- A run that returns accounts has one for each account of the bank, in its order and with its columns,
-- and has upserted these in one commit; no other table is changed.
pub sync_ok :
    (w : World) {ds : List Account} → (sync_accounts w).0 ≡ ok ds → Synced w ds (sync_accounts w).1
unfolding sync_accounts get_accounts on_error
sync_ok w {ds} h =
    let (accounts, q, h1, e) = bind_ok (on_error (wrapped "get accounts") get_accounts) _ w h in
    let (q1, e1) = on_error_ok (wrapped "get accounts") get_accounts w q in
    let w1 = (get_accounts w).1 in
    let (h2, c) = do_tx_ok (upsert_accounts accounts) w1 (Keeps-upsert_accounts accounts) h1 in
    let (at, mirrors, written) = body_ok accounts (entered w1) h2 in
    (
      accounts,
      at,
      q1,
      mirrors,
      ap (λ (x : Result (List Account) × World). x.1.committed) e
          ∙ c
          ∙ written
          ∙ ap (λ (db : Db). record db { accounts = upsert_all ds db.accounts })
              (entered-interfered w1),
    )

-- The identifier that a run returns for an account that is known already, and is the only one of the
-- bank, is the identifier of no row: the row keeps its own, and its label.
pub synced_id_is_lost :
    (w : World) (d row : Account)
    → (sync_accounts w).0 ≡ ok (d ∷ [])
    → account_with d.account_id (interfered w).accounts ≡ some row
    → has_id d.id (interfered w).accounts ≡ false
    → (account_with d.account_id (sync_accounts w).1.committed.accounts ≡ some (overwritten d row))
      × (has_id d.id (sync_accounts w).1.committed.accounts ≡ false)
synced_id_is_lost w d row h known fresh =
    let (accounts, at, q, mirrors, written) = sync_ok w h in
    let rows = (interfered w).accounts in
    let e : (sync_accounts w).1.committed.accounts ≡ upsert_rows d rows =
      ap (λ (db : Db). db.accounts) written in
    rw e (
      account_with-upsert_rows d.account_id d rows fresh ∙ rw (eq_refl d.account_id, known) refl,
      has_id-upsert_known d rows known fresh,
    )

-- A run that returns an error has changed no table, when no other process commits in between.
pub failed_sync :
    (w : World) {x : Error}
    → w.others ≡ []
    → (sync_accounts w).0 ≡ err x
    → (sync_accounts w).1.committed ≡ w.committed
unfolding sync_accounts get_accounts on_error ◌>>=◌
failed_sync w {x} alone h = listed (w.outside.get_accounts w.calls) refl h
  where
    listed :
        (r : Result (List Bank.Account))
        → w.outside.get_accounts w.calls ≡ r
        → (sync_accounts w).0 ≡ err x
        → (sync_accounts w).1.committed ≡ w.committed
    listed (ok accounts) q h = rw q (
        do_tx_err (upsert_accounts accounts) (record w { calls = w.calls + 1 })
          (Keeps-upsert_accounts accounts) (rw q at h)
        ∙ rw alone refl)
    listed (err e) q h = rw q refl
