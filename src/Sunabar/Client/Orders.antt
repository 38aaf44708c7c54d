-- ===== src/Sunabar/Client/Orders.antt =====
-- The methods of `HTTPClient` for transfers and virtual accounts
-- (internal/platform/sunabar/http_client.go).
use go_sunabar_payments.Base.{ℕ, List, [], ◌∷◌, some, String, str_eq, if◌then◌else◌}
use go_sunabar_payments.Base.Int.{pos, leb_ℤ}
use go_sunabar_payments.Platform.Errors.{ok, external, wrapped}
use go_sunabar_payments.Platform.Bank.{
  TransferRequest, TransferResult, TransferStatusResult, VirtualAccountRequest, VirtualAccount,
}
use go_sunabar_payments.Sunabar.Number.{format_int}
use go_sunabar_payments.Sunabar.Wire.{
  TransferRequestPayload, marshal_transfer_request, TransferResponse, decode_transfer,
  TransferStatusResponse, decode_transfer_status, VirtualAccountRequestPayload,
  marshal_virtual_account_request, VirtualAccountIssuedItem, decode_virtual_account,
}
use go_sunabar_payments.Sunabar.Session.{Call, pure, raise, ◌>>=◌, on_error, time_now}
use go_sunabar_payments.Sunabar.Client.{Ask, do_request, parse_sunabar_time}
use go_sunabar_payments.Sunabar.Client.Endpoints.{get}

abbrev pub today_unless : String → Call String
today_unless date =
    if str_eq date "" then (do at ← time_now; λ s. (ok (s.network.jst_date at), s)) else pure date

abbrev pub transfer_payload : TransferRequest → String → TransferRequestPayload
transfer_payload req date = record {
  account_id = req.source_account_id;
  transfer_designated_date = date;
  transfer_date_holiday_code = "1";
  total_count = "1";
  total_amount = format_int req.amount;
  transfers =
      record {
        item_id = "1";
        transfer_amount = format_int req.amount;
        beneficiary_bank_code = req.dest_bank_code;
        beneficiary_branch_code = req.dest_branch_code;
        account_type_code = req.dest_account_type;
        account_number = req.dest_account_num;
        beneficiary_name = req.dest_account_name;
      }
      ∷ [];
}

abbrev pub transfer_ask : TransferRequest → String → Ask
transfer_ask req date = record {
  method = "POST";
  path = "/personal/v1/transfer/request";
  query = [];
  body = some (marshal_transfer_request (transfer_payload req date));
  idempotency_key = req.idempotency_key;
}

abbrev pub instant_at : String → String → Call ℕ
instant_at context text = on_error (wrapped context) (λ s. (parse_sunabar_time s.network text, s))

abbrev pub transfer_result : TransferResponse → Call TransferResult
transfer_result resp = do
  at ← instant_at "parse acceptAt" resp.accept_at
  pure (record { apply_no = resp.apply_no; status = resp.status; accept_at = at })

unfoldable pub post_transfer : TransferRequest → Call TransferResult
post_transfer req = do
  date ← today_unless req.transfer_date
  resp ← do_request decode_transfer (transfer_ask req date)
  transfer_result resp

-- `RequestTransfer`.
unfoldable pub request_transfer : TransferRequest → Call TransferResult
unfolding post_transfer
request_transfer req =
    if str_eq req.source_account_id ""
    then raise (external "sunabar: SourceAccountID required")
    else if leb_ℤ req.amount (pos 0)
    then raise (external "sunabar: Amount must be positive")
    else post_transfer req

abbrev pub status_result : TransferStatusResponse → Call TransferStatusResult
status_result resp = do
  at ← instant_at "parse updatedAt" resp.updated_at
  pure (record {
    apply_no = resp.apply_no;
    status = resp.status;
    status_detail = resp.status_detail;
    updated_at = at;
  })

-- `GetTransferStatus`.
unfoldable pub get_transfer_status : String → Call TransferStatusResult
get_transfer_status apply_no = do
  resp ←
      do_request decode_transfer_status
        (get "/personal/v1/transfer/status" (("applyNo", apply_no) ∷ ("queryKeyClass", "2") ∷ []))
  status_result resp

abbrev or_default : String → String → String
or_default s d = if str_eq s "" then d else s

abbrev pub issue_payload : VirtualAccountRequest → VirtualAccountRequestPayload
issue_payload req = record {
  va_type_code = or_default req.va_type_code "2";
  issue_request_count = or_default req.issue_request_count "1";
  ra_id = req.ra_id;
  va_contract_auth_key = req.va_contract_auth_key;
  va_holder_name_kana = req.va_holder_name_kana;
  va_holder_name_pos = or_default req.va_holder_name_pos "1";
}

abbrev pub issue_ask : VirtualAccountRequest → Ask
issue_ask req = record {
  method = "POST";
  path = "/corporation/v1/va/issue";
  query = [];
  body = some (marshal_virtual_account_request (issue_payload req));
  idempotency_key = req.idempotency_key;
}

abbrev pub first_issued : ℕ → List VirtualAccountIssuedItem → Call VirtualAccount
first_issued expires_on [] = raise (external "sunabar: empty vaList in VA response")
first_issued expires_on (v ∷ _) = pure (record {
  virtual_account_id = v.va_id;
  branch_code = v.va_branch_code;
  account_number = v.va_account_number;
  expires_on = expires_on;
})

-- `IssueVirtualAccount`.
unfoldable pub issue_virtual_account : VirtualAccountRequest → Call VirtualAccount
issue_virtual_account req = do
  resp ← do_request decode_virtual_account (issue_ask req)
  first_issued req.expires_on resp.va_list
