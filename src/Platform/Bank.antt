-- ===== src/Platform/Bank.antt =====
-- internal/platform/sunabar/types.go: what the bank client takes and returns. An instant is a number of
-- nanoseconds, 0 for the zero time.
use go_sunabar_payments.Base.{ℕ, Bool, List, String}
use go_sunabar_payments.Base.Int.{ℤ}

-- `TransferRequest`.
pub record TransferRequest : Type 0 where
  pub idempotency_key : String
  pub source_account_id : String
  pub amount : ℤ
  pub dest_bank_code : String
  pub dest_branch_code : String
  pub dest_account_type : String
  pub dest_account_num : String
  pub dest_account_name : String
  pub transfer_date : String
  pub remarks : String

pub record TransferResult : Type 0 where
  pub apply_no : String
  pub status : String
  pub accept_at : ℕ

pub record TransferStatusResult : Type 0 where
  pub apply_no : String
  pub status : String
  pub status_detail : String
  pub updated_at : ℕ

-- One entry of a bank statement.
pub record Transaction : Type 0 where
  pub transaction_date : String
  pub value_date : String
  pub transaction_type : String
  pub amount : ℤ
  pub balance : ℤ
  pub remarks : String
  pub item_key : String

-- `Account`, as the bank reports it.
pub record Account : Type 0 where
  pub account_id : String
  pub branch_code : String
  pub account_number : String
  pub account_type_code : String
  pub account_name : String
  pub primary_account_flag : Bool

pub record Balance : Type 0 where
  pub account_id : String
  pub currency_code : String
  pub balance : ℤ
  pub base_date : String
  pub base_time : String

pub record ListTransactionsParams : Type 0 where
  pub from : ℕ
  pub to : ℕ

pub record TransactionList : Type 0 where
  pub account_id : String
  pub currency_code : String
  pub base_date : String
  pub base_time : String
  pub has_next : Bool
  pub count : ℤ
  pub transactions : List Transaction

pub record VirtualAccountRequest : Type 0 where
  pub idempotency_key : String
  pub memo : String
  pub expires_on : ℕ
  pub va_type_code : String
  pub issue_request_count : String
  pub ra_id : String
  pub va_contract_auth_key : String
  pub va_holder_name_kana : String
  pub va_holder_name_pos : String

pub record VirtualAccount : Type 0 where
  pub virtual_account_id : String
  pub branch_code : String
  pub account_number : String
  pub expires_on : ℕ
