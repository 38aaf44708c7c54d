-- ===== src/Transfer/Entity.antt =====
-- internal/modules/transfer/domain/transfer.go: the transfer aggregate and its methods. A method
-- that changes `*Transfer` returns the new record; times are instants counted from the zero time.
pub mod History
use go_sunabar_payments.Base.{ℕ, Option, none, some, String, if◌then◌else◌}
use go_sunabar_payments.Base.Int.{ℤ}
use go_sunabar_payments.Platform.Errors.{Result, ok, err, sentinel, invalid_transition}
use go_sunabar_payments.Platform.Json.{◌>>=◌}
use go_sunabar_payments.Transfer.Status.{Status, pending, requested, failed, can_transition}

-- `TransferParams`.
pub record Params : Type 0 where
  pub amount : ℤ
  pub source_account_id : String
  pub dest_bank_code : String
  pub dest_branch_code : String
  pub dest_account_type : String
  pub dest_account_num : String
  pub dest_account_name : String

-- `Transfer`: the business fields are those of `TransferParams`, opened.
pub record Transfer : Type 0 where
  pub id : String
  pub app_request_id : String
  pub api_idempotency_key : String
  pub status : Status
  pub params : Params
  pub open params use *
  pub apply_no : Option String
  pub last_error : Option String
  pub version : ℕ
  pub created_at : ℕ
  pub updated_at : ℕ

unfoldable pub new_transfer : String → String → String → Params → ℕ → Transfer
new_transfer id app_request_id api_idempotency_key params now = record {
  id = id;
  app_request_id = app_request_id;
  api_idempotency_key = api_idempotency_key;
  status = pending;
  params = params;
  apply_no = none;
  last_error = none;
  version = 1;
  created_at = now;
  updated_at = now;
}

unfoldable pub transition : Transfer → Status → ℕ → Result Transfer
unfolding can_transition
transition t to now =
    if can_transition t.status to
    then ok (record t { status = to; updated_at = now })
    else err (sentinel invalid_transition)

unfoldable pub mark_requested : Transfer → String → ℕ → Result Transfer
unfolding transition
mark_requested t apply_no now =
    transition t requested now >>= λ t'. ok (record t' { apply_no = some apply_no })

unfoldable pub mark_failed : Transfer → String → ℕ → Result Transfer
unfolding transition
mark_failed t reason now =
    transition t failed now >>= λ t'. ok (record t' { last_error = some reason })
