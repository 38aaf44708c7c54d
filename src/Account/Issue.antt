-- ===== src/Account/Issue.antt =====
-- internal/modules/account/application/usecase.go: issuing virtual accounts. The bank is asked first;
-- what it has issued is then stored in a transaction.
pub mod Effects
pub mod Conflict
use go_sunabar_payments.Base.{
  ℕ, ◌+◌, List, [], ◌∷◌, ◌++◌, Option, none, some, String, str_eq, ◌==◌, if◌then◌else◌,
}
use go_sunabar_payments.Platform.Errors.{Result, ok, err, wrapped}
use go_sunabar_payments.Platform.Bank.{VirtualAccountRequest}
use go_sunabar_payments.Platform.Bank as Bank
use go_sunabar_payments.Platform.World.{
  World, Action, pure, raise, lift, ◌>>=◌, ◌>>◌, on_error, now, new_id,
}
use go_sunabar_payments.Platform.Sql.{do_tx}
use go_sunabar_payments.Account.Entity.{VirtualAccount, new_virtual_account}
use go_sunabar_payments.Account.Repository.{insert_virtual_account}

-- `IssueVirtualAccountCommand`.
pub record IssueVirtualAccountCommand : Type 0 where
  pub memo : String
  pub expires_on : Option ℕ
  pub ra_id : String
  pub va_type_code : String
  pub issue_request_count : String
  pub va_contract_auth_key : String
  pub va_holder_name_kana : String
  pub va_holder_name_pos : String

abbrev or_zero : Option ℕ → ℕ
or_zero none = 0
or_zero (some at) = at

abbrev pub request_of : String → IssueVirtualAccountCommand → VirtualAccountRequest
request_of key cmd = record {
  idempotency_key = key;
  memo = cmd.memo;
  expires_on = or_zero cmd.expires_on;
  va_type_code = cmd.va_type_code;
  issue_request_count = cmd.issue_request_count;
  ra_id = cmd.ra_id;
  va_contract_auth_key = cmd.va_contract_auth_key;
  va_holder_name_kana = cmd.va_holder_name_kana;
  va_holder_name_pos = cmd.va_holder_name_pos;
}

-- `client.IssueVirtualAccount`.
unfoldable pub issue_at_bank : VirtualAccountRequest → Action Bank.VirtualAccount
issue_at_bank req w = (
  w.outside.issue_virtual_account w.calls req,
  record w { calls = w.calls + 1; issues = w.issues ++ req ∷ [] },
)

abbrev memo_of : String → Option String
memo_of memo = if str_eq memo "" then none else some memo

-- The bank's day, if it gives one, else that of the command.
abbrev pub expiry_of : ℕ → Option ℕ → Option ℕ
expiry_of given asked = if given == 0 then asked else some given

abbrev pub issued_as :
    String → IssueVirtualAccountCommand → Bank.VirtualAccount → ℕ → VirtualAccount
issued_as id cmd res at =
    new_virtual_account id res.virtual_account_id res.branch_code res.account_number
      (memo_of cmd.memo) (expiry_of res.expires_on cmd.expires_on) at

-- What comes after the answer of the bank.
unfoldable pub store_issued :
    IssueVirtualAccountCommand → Bank.VirtualAccount → Action VirtualAccount
store_issued cmd res = do
  id ← new_id
  at ← now
  do_tx (insert_virtual_account (issued_as id cmd res at))
  pure (issued_as id cmd res at)

-- `IssueVirtualAccountUseCase.Execute`: each run draws a key of its own.
unfoldable pub issue_virtual_account : IssueVirtualAccountCommand → Action VirtualAccount
unfolding store_issued
issue_virtual_account cmd = do
  key ← new_id
  res ← on_error (wrapped "issue virtual account") (issue_at_bank (request_of key cmd))
  store_issued cmd res
