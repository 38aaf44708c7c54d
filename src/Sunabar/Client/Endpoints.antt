-- ===== src/Sunabar/Client/Endpoints.antt =====
-- The methods of `HTTPClient` that read accounts (internal/platform/sunabar/http_client.go).
use Prim.Native.String.{◌++◌ as str_append}
use go_sunabar_payments.Base.{
  ℕ, ◌+◌, Bool, true, false, ◌&&◌, List, [], ◌∷◌, ◌++◌, map, none, String, str_eq, leb, ◌==◌,
  if◌then◌else◌,
}
use go_sunabar_payments.Base.Int.{ℤ, pos, ltb_ℤ}
use go_sunabar_payments.Platform.Errors.{external, wrapped}
use go_sunabar_payments.Platform.Bank.{
  Transaction, Account, Balance, ListTransactionsParams, TransactionList,
}
use go_sunabar_payments.Sunabar.Number.{codes, format_int, parse_sunabar_int}
use go_sunabar_payments.Sunabar.Wire.{
  AccountResponse, decode_accounts, BalanceItem, decode_balances, TransactionResponse,
  TransactionListResponse, decode_transaction_list,
}
use go_sunabar_payments.Sunabar.Session.{Network, Call, pure, raise, lift, ◌>>=◌, ◌>>◌, on_error}
use go_sunabar_payments.Sunabar.Client.{Ask, do_request}

abbrev pub get : String → List (String × String) → Ask
get path query = record {
  method = "GET";
  path = path;
  query = query;
  body = none;
  idempotency_key = "";
}

abbrev pub account_of : AccountResponse → Account
account_of a = record {
  account_id = a.account_id;
  branch_code = a.branch_code;
  account_number = a.account_number;
  account_type_code = a.account_type_code;
  account_name = a.account_name;
  primary_account_flag = str_eq a.primary_account_code "1";
}

-- `GetAccounts`.
unfoldable pub get_accounts : Call (List Account)
get_accounts = do
  accounts ← do_request decode_accounts (get "/personal/v1/accounts" [])
  pure (map account_of accounts)

abbrev pub first_balance : String → List BalanceItem → Call Balance
first_balance account_id [] =
    raise (external (str_append "sunabar empty balances for accountId=" account_id))
first_balance account_id (b ∷ _) = do
  amount ← on_error (wrapped "parse balance") (lift (parse_sunabar_int b.balance))
  pure (record {
    account_id = b.account_id;
    currency_code = b.currency_code;
    balance = amount;
    base_date = b.base_date;
    base_time = b.base_time;
  })

-- `GetBalance`.
unfoldable pub get_balance : String → Call Balance
get_balance account_id = do
  balances ←
      do_request decode_balances
        (get "/personal/v1/accounts/balances" (("accountId", account_id) ∷ []))
  first_balance account_id balances

abbrev date_param : Network → String → ℕ → List (String × String)
date_param net key at = if at == 0 then [] else (key, net.utc_date at) ∷ []

abbrev upper_to_lower : ℕ → ℕ
upper_to_lower c = if leb b'A' c && leb c b'Z' then c + 32 else c

abbrev same_folded : List ℕ → List ℕ → Bool
same_folded [] [] = true
same_folded [] (d ∷ t) = false
same_folded (c ∷ s) [] = false
same_folded (c ∷ s) (d ∷ t) = upper_to_lower c == d && same_folded s t

-- `strings.EqualFold(s, "true")`: no letter beyond ASCII folds to one of these.
abbrev pub is_true : String → Bool
is_true s = same_folded (codes s) (codes "true")

abbrev pub transaction_of : TransactionResponse → Call Transaction
transaction_of t = do
  amount ← on_error (wrapped "parse transaction amount") (lift (parse_sunabar_int t.amount))
  balance ← on_error (wrapped "parse transaction balance") (lift (parse_sunabar_int t.balance))
  pure (record {
    transaction_date = t.transaction_date;
    value_date = t.value_date;
    transaction_type = t.transaction_type;
    amount = amount;
    balance = balance;
    remarks = t.remarks;
    item_key = t.item_key;
  })

unfoldable pub transactions_of : List TransactionResponse → Call (List Transaction)
transactions_of [] = pure []
transactions_of (t ∷ ts) = do
  first ← transaction_of t
  rest ← transactions_of ts
  pure (first ∷ rest)

abbrev pub checked_count : ℤ → Call (Unit {0})
checked_count count =
    if ltb_ℤ count (pos 0)
    then raise (external (str_append "count out of range: " (format_int count)))
    else pure tt

-- What `ListTransactions` makes of an answer.
unfoldable pub transaction_list_of : TransactionListResponse → Call TransactionList
unfolding transactions_of
transaction_list_of resp = do
  count ← on_error (wrapped "parse count") (lift (parse_sunabar_int resp.count))
  checked_count count
  transactions ← transactions_of resp.transactions
  pure (record {
    account_id = resp.account_id;
    currency_code = resp.currency_code;
    base_date = resp.base_date;
    base_time = resp.base_time;
    has_next = is_true resp.has_next;
    count = count;
    transactions = transactions;
  })

abbrev transactions_ask : Network → String → ListTransactionsParams → Ask
transactions_ask net account_id params = get "/personal/v1/accounts/transactions" (
    ("accountId", account_id)
    ∷ (date_param net "dateFrom" params.from ++ date_param net "dateTo" params.to))

-- `ListTransactions`.
unfoldable pub list_transactions : String → ListTransactionsParams → Call TransactionList
unfolding transaction_list_of
list_transactions account_id params = do
  resp ← (λ s. do_request decode_transaction_list (transactions_ask s.network account_id params) s)
  transaction_list_of resp
