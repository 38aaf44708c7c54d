-- ===== src/Sunabar/Wire.antt =====
-- The structs of the messages of internal/platform/sunabar/http_client.go, with how the bodies of
-- requests are written and those of answers read.
use go_sunabar_payments.Base.{List, [], ◌∷◌, String}
use go_sunabar_payments.Platform.Errors.{Result, ok}
use go_sunabar_payments.Platform.Json.{◌>>=◌}
use go_sunabar_payments.Sunabar.Json.{
  Tree, text, array, object, Trees, nil, cons, Members, end, member, texts, find_member,
  text_member, as_slice,
}

-- `accountResponse`.
pub record AccountResponse : Type 0 where
  pub account_id : String
  pub branch_code : String
  pub account_number : String
  pub account_type_code : String
  pub account_name : String
  pub primary_account_code : String

abbrev pub decode_account : Members → Result AccountResponse
decode_account ms = do
  account_id ← text_member "accountId" ms
  branch_code ← text_member "branchCode" ms
  account_number ← text_member "accountNumber" ms
  account_type_code ← text_member "accountTypeCode" ms
  account_name ← text_member "accountName" ms
  primary_account_code ← text_member "primaryAccountCode" ms
  ok (record {
    account_id = account_id;
    branch_code = branch_code;
    account_number = account_number;
    account_type_code = account_type_code;
    account_name = account_name;
    primary_account_code = primary_account_code;
  })

-- `accountsResponseEnvelope`.
abbrev pub decode_accounts : Members → Result (List AccountResponse)
decode_accounts ms = as_slice decode_account (find_member "accounts" ms)

-- `balanceItem`.
pub record BalanceItem : Type 0 where
  pub account_id : String
  pub currency_code : String
  pub balance : String
  pub base_date : String
  pub base_time : String

abbrev pub decode_balance : Members → Result BalanceItem
decode_balance ms = do
  account_id ← text_member "accountId" ms
  currency_code ← text_member "currencyCode" ms
  balance ← text_member "balance" ms
  base_date ← text_member "baseDate" ms
  base_time ← text_member "baseTime" ms
  ok (record {
    account_id = account_id;
    currency_code = currency_code;
    balance = balance;
    base_date = base_date;
    base_time = base_time;
  })

-- `balancesResponse`.
abbrev pub decode_balances : Members → Result (List BalanceItem)
decode_balances ms = as_slice decode_balance (find_member "balances" ms)

-- `transactionResponse`.
pub record TransactionResponse : Type 0 where
  pub transaction_date : String
  pub value_date : String
  pub transaction_type : String
  pub amount : String
  pub balance : String
  pub remarks : String
  pub item_key : String

abbrev pub decode_transaction : Members → Result TransactionResponse
decode_transaction ms = do
  transaction_date ← text_member "transactionDate" ms
  value_date ← text_member "valueDate" ms
  transaction_type ← text_member "transactionType" ms
  amount ← text_member "amount" ms
  balance ← text_member "balance" ms
  remarks ← text_member "remarks" ms
  item_key ← text_member "itemKey" ms
  ok (record {
    transaction_date = transaction_date;
    value_date = value_date;
    transaction_type = transaction_type;
    amount = amount;
    balance = balance;
    remarks = remarks;
    item_key = item_key;
  })

-- `transactionListResponse`.
pub record TransactionListResponse : Type 0 where
  pub account_id : String
  pub currency_code : String
  pub base_date : String
  pub base_time : String
  pub has_next : String
  pub count : String
  pub transactions : List TransactionResponse

abbrev pub decode_transaction_list : Members → Result TransactionListResponse
decode_transaction_list ms = do
  account_id ← text_member "accountId" ms
  currency_code ← text_member "currencyCode" ms
  base_date ← text_member "baseDate" ms
  base_time ← text_member "baseTime" ms
  has_next ← text_member "hasNext" ms
  count ← text_member "count" ms
  transactions ← as_slice decode_transaction (find_member "transactions" ms)
  ok (record {
    account_id = account_id;
    currency_code = currency_code;
    base_date = base_date;
    base_time = base_time;
    has_next = has_next;
    count = count;
    transactions = transactions;
  })

-- `transferItem`.
pub record TransferItem : Type 0 where
  pub item_id : String
  pub transfer_amount : String
  pub beneficiary_bank_code : String
  pub beneficiary_branch_code : String
  pub account_type_code : String
  pub account_number : String
  pub beneficiary_name : String

abbrev pub marshal_item : TransferItem → Tree
marshal_item i = object (
    texts (
      ("itemId", i.item_id)
      ∷ ("transferAmount", i.transfer_amount)
      ∷ ("beneficiaryBankCode", i.beneficiary_bank_code)
      ∷ ("beneficiaryBranchCode", i.beneficiary_branch_code)
      ∷ ("accountTypeCode", i.account_type_code)
      ∷ ("accountNumber", i.account_number)
      ∷ ("beneficiaryName", i.beneficiary_name)
      ∷ []))

abbrev pub marshal_items : List TransferItem → Trees
marshal_items [] = nil
marshal_items (i ∷ is) = cons (marshal_item i) (marshal_items is)

-- `transferRequestPayload`.
pub record TransferRequestPayload : Type 0 where
  pub account_id : String
  pub transfer_designated_date : String
  pub transfer_date_holiday_code : String
  pub total_count : String
  pub total_amount : String
  pub transfers : List TransferItem

abbrev pub marshal_transfer_request : TransferRequestPayload → Tree
marshal_transfer_request p = object (
    member "accountId" (text p.account_id) (
      member "transferDesignatedDate" (text p.transfer_designated_date) (
        member "transferDateHolidayCode" (text p.transfer_date_holiday_code) (
          member "totalCount" (text p.total_count) (
            member "totalAmount" (text p.total_amount)
              (member "transfers" (array (marshal_items p.transfers)) end))))))

-- `transferResponse`.
pub record TransferResponse : Type 0 where
  pub apply_no : String
  pub status : String
  pub accept_at : String

abbrev pub decode_transfer : Members → Result TransferResponse
decode_transfer ms = do
  apply_no ← text_member "applyNo" ms
  status ← text_member "status" ms
  accept_at ← text_member "acceptAt" ms
  ok (record { apply_no = apply_no; status = status; accept_at = accept_at })

-- `transferStatusResponse`.
pub record TransferStatusResponse : Type 0 where
  pub apply_no : String
  pub status : String
  pub status_detail : String
  pub updated_at : String

abbrev pub decode_transfer_status : Members → Result TransferStatusResponse
decode_transfer_status ms = do
  apply_no ← text_member "applyNo" ms
  status ← text_member "status" ms
  status_detail ← text_member "statusDetail" ms
  updated_at ← text_member "updatedAt" ms
  ok (record {
    apply_no = apply_no;
    status = status;
    status_detail = status_detail;
    updated_at = updated_at;
  })

-- `virtualAccountRequestPayload`.
pub record VirtualAccountRequestPayload : Type 0 where
  pub va_type_code : String
  pub issue_request_count : String
  pub ra_id : String
  pub va_contract_auth_key : String
  pub va_holder_name_kana : String
  pub va_holder_name_pos : String

abbrev pub marshal_virtual_account_request : VirtualAccountRequestPayload → Tree
marshal_virtual_account_request p = object (
    texts (
      ("vaTypeCode", p.va_type_code)
      ∷ ("issueRequestCount", p.issue_request_count)
      ∷ ("raId", p.ra_id)
      ∷ ("vaContractAuthKey", p.va_contract_auth_key)
      ∷ ("vaHolderNameKana", p.va_holder_name_kana)
      ∷ ("vaHolderNamePos", p.va_holder_name_pos)
      ∷ []))

-- `virtualAccountIssuedItem`.
pub record VirtualAccountIssuedItem : Type 0 where
  pub va_id : String
  pub va_branch_code : String
  pub va_account_number : String

abbrev pub decode_issued : Members → Result VirtualAccountIssuedItem
decode_issued ms = do
  va_id ← text_member "vaId" ms
  va_branch_code ← text_member "vaBranchCode" ms
  va_account_number ← text_member "vaAccountNumber" ms
  ok (record {
    va_id = va_id;
    va_branch_code = va_branch_code;
    va_account_number = va_account_number;
  })

-- `virtualAccountResponse`.
pub record VirtualAccountResponse : Type 0 where
  pub va_type_code : String
  pub va_type_name : String
  pub va_holder_name_kana : String
  pub va_list : List VirtualAccountIssuedItem

abbrev pub decode_virtual_account : Members → Result VirtualAccountResponse
decode_virtual_account ms = do
  va_type_code ← text_member "vaTypeCode" ms
  va_type_name ← text_member "vaTypeName" ms
  va_holder_name_kana ← text_member "vaHolderNameKana" ms
  va_list ← as_slice decode_issued (find_member "vaList" ms)
  ok (record {
    va_type_code = va_type_code;
    va_type_name = va_type_name;
    va_holder_name_kana = va_holder_name_kana;
    va_list = va_list;
  })
