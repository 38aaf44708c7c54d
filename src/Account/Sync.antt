-- ===== src/Account/Sync.antt =====
-- internal/modules/account/application/usecase.go: taking over the accounts of the bank, and asking for
-- a balance.
pub mod Effects
use go_sunabar_payments.Base.{ℕ, ◌+◌, List, [], ◌∷◌, String}
use go_sunabar_payments.Platform.Errors.{Result, ok, err, wrapped}
use go_sunabar_payments.Platform.Bank as Bank
use go_sunabar_payments.Platform.World.{
  World, Action, pure, raise, lift, ◌>>=◌, ◌>>◌, on_error, now, new_id,
}
use go_sunabar_payments.Platform.Sql.{do_tx}
use go_sunabar_payments.Account.Entity.{Account, new_account, Balance}
use go_sunabar_payments.Account.Repository.{upsert_by_account_id}

-- `client.GetAccounts` and `client.GetBalance`.
unfoldable pub get_accounts : Action (List Bank.Account)
get_accounts w = (w.outside.get_accounts w.calls, record w { calls = w.calls + 1 })

unfoldable pub client_balance : String → Action Bank.Balance
client_balance account_id w =
    (w.outside.get_balance w.calls account_id, record w { calls = w.calls + 1 })

abbrev pub account_from : String → Bank.Account → ℕ → Account
account_from id a at =
    new_account id a.account_id a.branch_code a.account_number a.account_type_code a.account_name
      a.primary_account_flag at

-- The loop within the transaction.
unfoldable pub upsert_each : ℕ → List Bank.Account → Action (List Account)
upsert_each at [] = pure []
upsert_each at (a ∷ rest) = do
  id ← new_id
  upsert_by_account_id (account_from id a at)
  accounts ← upsert_each at rest
  pure (account_from id a at ∷ accounts)

unfoldable pub upsert_accounts : List Bank.Account → Action (List Account)
upsert_accounts accounts = do at ← now; upsert_each at accounts

-- `SyncAccountsUseCase.Execute`.
unfoldable pub sync_accounts : Action (List Account)
unfolding upsert_accounts
sync_accounts = do
  accounts ← on_error (wrapped "get accounts") get_accounts
  do_tx (upsert_accounts accounts)

-- `GetBalanceUseCase.Execute`.
unfoldable pub get_balance : String → Action Balance
get_balance account_id = do
  b ← on_error (wrapped "get balance") (client_balance account_id)
  pure (record {
    account_id = b.account_id;
    currency_code = b.currency_code;
    amount = b.balance;
    base_date = b.base_date;
    base_time = b.base_time;
  })
