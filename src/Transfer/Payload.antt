-- ===== src/Transfer/Payload.antt =====
-- internal/modules/transfer/domain/events.go: the event types and the JSON payloads of the events.
use go_sunabar_payments.Base.{List, [], ◌∷◌, String}
use go_sunabar_payments.Base.Int.{ℤ}
use go_sunabar_payments.Platform.Errors.{Result, ok, err}
use go_sunabar_payments.Platform.Json.{
  Value, text, number, Json, object, malformed, string_field, int64_field, omit_empty,
  malformed_error, ◌>>=◌,
}
pub mod Roundtrip

abbrev pub event_transfer_requested : String
event_transfer_requested = "TransferRequested"

abbrev pub event_transfer_accepted_to_bank : String
event_transfer_accepted_to_bank = "TransferAcceptedToBank"

abbrev pub event_transfer_status_check : String
event_transfer_status_check = "TransferStatusCheckScheduled"

abbrev pub event_transfer_awaiting_approval : String
event_transfer_awaiting_approval = "TransferAwaitingApproval"

abbrev pub event_transfer_settled : String
event_transfer_settled = "TransferSettled"

abbrev pub event_transfer_failed : String
event_transfer_failed = "TransferFailed"

-- `TransferRequestedPayload`.
pub record RequestedPayload : Type 0 where
  pub transfer_id : String
  pub api_idempotency_key : String
  pub amount : ℤ
  pub source_account_id : String
  pub dest_bank_code : String
  pub dest_branch_code : String
  pub dest_account_type : String
  pub dest_account_num : String
  pub dest_account_name : String

-- `TransferStatusCheckPayload`.
pub record StatusCheckPayload : Type 0 where
  pub transfer_id : String
  pub apply_no : String

-- `TransferStateChangedPayload`.
pub record StateChangedPayload : Type 0 where
  pub transfer_id : String
  pub from_status : String
  pub to_status : String
  pub apply_no : String
  pub error_message : String

unfoldable pub marshal_requested : RequestedPayload → Json
marshal_requested p = object (
    ("transferId", text p.transfer_id)
    ∷ ("apiIdempotencyKey", text p.api_idempotency_key)
    ∷ ("amount", number p.amount)
    ∷ ("sourceAccountId", text p.source_account_id)
    ∷ ("destBankCode", text p.dest_bank_code)
    ∷ ("destBranchCode", text p.dest_branch_code)
    ∷ ("destAccountType", text p.dest_account_type)
    ∷ ("destAccountNum", text p.dest_account_num)
    ∷ ("destAccountName", text p.dest_account_name)
    ∷ [])

unfoldable pub marshal_status_check : StatusCheckPayload → Json
marshal_status_check p =
    object (("transferId", text p.transfer_id) ∷ ("applyNo", text p.apply_no) ∷ [])

unfoldable pub marshal_state_changed : StateChangedPayload → Json
marshal_state_changed p = object (
    ("transferId", text p.transfer_id)
    ∷ ("fromStatus", text p.from_status)
    ∷ ("toStatus", text p.to_status)
    ∷ omit_empty "applyNo" p.apply_no (omit_empty "errorMessage" p.error_message []))

unfoldable pub unmarshal_requested : Json → Result RequestedPayload
unmarshal_requested malformed = malformed_error
unmarshal_requested (object fields) = do
  transfer_id ← string_field "transferId" fields
  key ← string_field "apiIdempotencyKey" fields
  amount ← int64_field "amount" fields
  source ← string_field "sourceAccountId" fields
  bank ← string_field "destBankCode" fields
  branch ← string_field "destBranchCode" fields
  kind ← string_field "destAccountType" fields
  num ← string_field "destAccountNum" fields
  name ← string_field "destAccountName" fields
  ok (record {
    transfer_id = transfer_id;
    api_idempotency_key = key;
    amount = amount;
    source_account_id = source;
    dest_bank_code = bank;
    dest_branch_code = branch;
    dest_account_type = kind;
    dest_account_num = num;
    dest_account_name = name;
  })

unfoldable pub unmarshal_status_check : Json → Result StatusCheckPayload
unmarshal_status_check malformed = malformed_error
unmarshal_status_check (object fields) = do
  transfer_id ← string_field "transferId" fields
  apply_no ← string_field "applyNo" fields
  ok (record { transfer_id = transfer_id; apply_no = apply_no })

unfoldable pub unmarshal_state_changed : Json → Result StateChangedPayload
unmarshal_state_changed malformed = malformed_error
unmarshal_state_changed (object fields) = do
  transfer_id ← string_field "transferId" fields
  from ← string_field "fromStatus" fields
  to ← string_field "toStatus" fields
  apply_no ← string_field "applyNo" fields
  message ← string_field "errorMessage" fields
  ok (record {
    transfer_id = transfer_id;
    from_status = from;
    to_status = to;
    apply_no = apply_no;
    error_message = message;
  })
