-- ===== src/Account/Transport.antt =====
-- internal/modules/account/transport_http.go: the endpoints for accounts. A body is written whole: the
-- error of writing it is passed over by the code.
use Prim.Native.String.{◌++◌ as str_append}
use go_sunabar_payments.Base.{ℕ, Bool, List, map, Option, none, some, String, str_eq, if◌then◌else◌}
use go_sunabar_payments.Platform.Errors.{
  Result, ok, err, account_already_exists, errors_is, error_text,
}
use go_sunabar_payments.Platform.Json.{
  Json, object, malformed, string_field, malformed_error, ◌>>=◌,
}
use go_sunabar_payments.Platform.World.{World}
use go_sunabar_payments.Account.Entity.{Account, Balance, VirtualAccount}
use go_sunabar_payments.Account.Repository.{list_all_accounts, list_all_virtual_accounts}
use go_sunabar_payments.Account.Sync.{sync_accounts, get_balance}
use go_sunabar_payments.Account.Issue.{IssueVirtualAccountCommand, issue_virtual_account}

-- `accountResponse`.
pub record AccountResponse : Type 0 where
  pub id : String
  pub account_id : String
  pub branch_code : String
  pub account_number : String
  pub account_name : String
  pub primary_flag : Bool

-- `toAccountResponse`.
abbrev pub to_account_response : Account → AccountResponse
to_account_response a = record {
  id = a.id;
  account_id = a.account_id;
  branch_code = a.branch_code;
  account_number = a.account_number;
  account_name = a.account_name;
  primary_flag = a.primary_flag;
}

-- `virtualAccountResponse`.
pub record VirtualAccountResponse : Type 0 where
  pub id : String
  pub virtual_account_id : String
  pub branch_code : String
  pub account_number : String
  pub memo : String
  pub expires_on : String

abbrev text_or_empty : Option String → String
text_or_empty none = ""
text_or_empty (some s) = s

abbrev day_or_empty : (ℕ → String) → Option ℕ → String
day_or_empty format_date none = ""
day_or_empty format_date (some at) = format_date at

-- `toVAResponse`.
abbrev pub to_va_response : (ℕ → String) → VirtualAccount → VirtualAccountResponse
to_va_response format_date va = record {
  id = va.id;
  virtual_account_id = va.virtual_account_id;
  branch_code = va.branch_code;
  account_number = va.account_number;
  memo = text_or_empty va.memo;
  expires_on = day_or_empty format_date va.expires_on;
}

-- What is written: a status with a body, or with a text under the key "error".
pub data Reply : Type 0 where
  accounts_shown : ℕ → List AccountResponse → Reply
  balance_shown : ℕ → Balance → Reply
  va_shown : ℕ → VirtualAccountResponse → Reply
  vas_shown : ℕ → List VirtualAccountResponse → Reply
  refused : ℕ → String → Reply

abbrev pub status_code_of : Reply → ℕ
status_code_of (accounts_shown code _) = code
status_code_of (balance_shown code _) = code
status_code_of (va_shown code _) = code
status_code_of (vas_shown code _) = code
status_code_of (refused code _) = code

abbrev accounts_reply : Result (List Account) × World → Reply × World
accounts_reply (ok accounts, w) = (accounts_shown 200 (map to_account_response accounts), w)
accounts_reply (err e, w) = (refused 500 (error_text e), w)

-- `sync`.
unfoldable pub sync : World → Reply × World
sync w = accounts_reply (sync_accounts w)

-- `list`.
unfoldable pub list : World → Reply × World
list w = accounts_reply (list_all_accounts w)

abbrev balance_reply : Result Balance × World → Reply × World
balance_reply (ok b, w) = (balance_shown 200 b, w)
balance_reply (err e, w) = (refused 500 (error_text e), w)

-- `balance`.
unfoldable pub balance : String → World → Reply × World
balance id w =
    if str_eq id "" then (refused 400 "id required", w) else balance_reply (get_balance id w)

-- The body of `issueVA`: the command, without its day, and the day as a text.
abbrev pub decode_issue : Json → Result (IssueVirtualAccountCommand × String)
decode_issue malformed = malformed_error
decode_issue (object fields) = do
  memo ← string_field "memo" fields
  expires_on ← string_field "expiresOn" fields
  ra_id ← string_field "raId" fields
  va_type_code ← string_field "vaTypeCode" fields
  issue_request_count ← string_field "issueRequestCount" fields
  va_contract_auth_key ← string_field "vaContractAuthKey" fields
  va_holder_name_kana ← string_field "vaHolderNameKana" fields
  va_holder_name_pos ← string_field "vaHolderNamePos" fields
  ok (
    record {
      memo = memo;
      expires_on = none;
      ra_id = ra_id;
      va_type_code = va_type_code;
      issue_request_count = issue_request_count;
      va_contract_auth_key = va_contract_auth_key;
      va_holder_name_kana = va_holder_name_kana;
      va_holder_name_pos = va_holder_name_pos;
    },
    expires_on,
  )

unfoldable pub issued_reply : Result VirtualAccount × World → Reply × World
issued_reply (ok va, w) = (va_shown 201 (to_va_response w.outside.format_date va), w)
issued_reply (err e, w) =
    if errors_is e account_already_exists
    then (refused 409 (error_text e), w)
    else (refused 500 (error_text e), w)

abbrev on_day : IssueVirtualAccountCommand → Option ℕ → World → Reply × World
on_day cmd none w = (refused 400 "invalid expiresOn: must be YYYY-MM-DD", w)
on_day cmd (some at) w =
    issued_reply (issue_virtual_account (record cmd { expires_on = some at }) w)

abbrev pub issue_decoded : Result (IssueVirtualAccountCommand × String) → World → Reply × World
issue_decoded (err e) w = (refused 400 (str_append "invalid json: " (error_text e)), w)
issue_decoded (ok (cmd, day)) w =
    if str_eq day ""
    then issued_reply (issue_virtual_account cmd w)
    else on_day cmd (w.outside.parse_day day) w

-- `issueVA`.
unfoldable pub issue_va : Json → World → Reply × World
unfolding issued_reply
issue_va body w = issue_decoded (decode_issue body) w

abbrev vas_reply : Result (List VirtualAccount) × World → Reply × World
vas_reply (ok vas, w) = (vas_shown 200 (map (to_va_response w.outside.format_date) vas), w)
vas_reply (err e, w) = (refused 500 (error_text e), w)

-- `listVA`.
unfoldable pub list_va : World → Reply × World
list_va w = vas_reply (list_all_virtual_accounts w)
