-- ===== src/Transfer/Transport.antt =====
-- internal/modules/transfer/transport_http.go: the endpoints for transfers. A body is written whole:
-- the error of writing it is passed over by the code.
pub mod Accepted
use Prim.Native.String.{◌++◌ as str_append}
use go_sunabar_payments.Base.{
  ℕ, Bool, List, [], ◌∷◌, Option, none, some, String, str_eq, if◌then◌else◌,
}
use go_sunabar_payments.Base.Int.{ℤ, pos, leb_ℤ}
use go_sunabar_payments.Platform.Errors.{Error, Result, ok, err, not_found, errors_is, error_text}
use go_sunabar_payments.Platform.Json.{
  Json, object, malformed, string_field, int64_field, malformed_error, ◌>>=◌,
}
use go_sunabar_payments.Platform.World.{World}
use go_sunabar_payments.Transfer.Status.{status_text}
use go_sunabar_payments.Transfer.Entity.{Params, Transfer}
use go_sunabar_payments.Transfer.Repository.{find_by_id}
use go_sunabar_payments.Transfer.Request.{Command, execute}

-- Decoding a body into `requestTransferBody`, whose fields are those of the command.
unfoldable pub decode_body : Json → Result Command
decode_body malformed = malformed_error
decode_body (object fields) = do
  app_request_id ← string_field "appRequestId" fields
  amount ← int64_field "amount" fields
  source ← string_field "sourceAccountId" fields
  bank ← string_field "destBankCode" fields
  branch ← string_field "destBranchCode" fields
  kind ← string_field "destAccountType" fields
  num ← string_field "destAccountNum" fields
  name ← string_field "destAccountName" fields
  ok (record {
    app_request_id = app_request_id;
    params = record {
      amount = amount;
      source_account_id = source;
      dest_bank_code = bank;
      dest_branch_code = branch;
      dest_account_type = kind;
      dest_account_num = num;
      dest_account_name = name;
    };
  })

-- `transferResponse`.
pub record TransferResponse : Type 0 where
  pub id : String
  pub app_request_id : String
  pub status : String
  pub amount : ℤ
  pub apply_no : String
  pub last_error : String
  pub version : ℕ

abbrev text_or_empty : Option String → String
text_or_empty none = ""
text_or_empty (some s) = s

-- `toResponse`.
abbrev pub to_response : Transfer → TransferResponse
to_response t = record {
  id = t.id;
  app_request_id = t.app_request_id;
  status = status_text t.status;
  amount = t.amount;
  apply_no = text_or_empty t.apply_no;
  last_error = text_or_empty t.last_error;
  version = t.version;
}

-- What is written: a status with a transfer, or with a text under the key "error".
pub data Reply : Type 0 where
  shown : ℕ → TransferResponse → Reply
  refused : ℕ → String → Reply

abbrev pub status_code_of : Reply → ℕ
status_code_of (shown code _) = code
status_code_of (refused code _) = code

unfoldable pub requested : Result Transfer × World → Reply × World
requested (ok t, w) = (shown 202 (to_response t), w)
requested (err e, w) = (refused 500 (error_text e), w)

unfoldable pub validated : Result Command → World → Reply × World
validated (err e) w = (refused 400 (str_append "invalid json: " (error_text e)), w)
validated (ok cmd) w =
    if str_eq cmd.app_request_id ""
    then (refused 400 "appRequestId required", w)
    else if leb_ℤ cmd.params.amount (pos 0)
    then (refused 400 "amount must be positive", w)
    else requested (execute cmd w)

-- `create`.
unfoldable pub create : Json → World → Reply × World
create body w = validated (decode_body body) w

unfoldable pub looked_up : Result Transfer × World → Reply × World
looked_up (ok t, w) = (shown 200 (to_response t), w)
looked_up (err e, w) =
    if errors_is e not_found then (refused 404 "not found", w) else (refused 500 (error_text e), w)

-- `get`.
unfoldable pub get : String → World → Reply × World
get id w = if str_eq id "" then (refused 400 "id required", w) else looked_up (find_by_id id w)
