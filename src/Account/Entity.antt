-- ===== src/Account/Entity.antt =====
-- internal/modules/account/domain/account.go.
use go_sunabar_payments.Base.{ℕ, Bool, Option, none, String}
use go_sunabar_payments.Base.Int.{ℤ}

-- `Account`.
pub record Account : Type 0 where
  pub id : String
  pub account_id : String
  pub branch_code : String
  pub account_number : String
  pub account_type_code : String
  pub account_name : String
  pub primary_flag : Bool
  pub label : Option String
  pub created_at : ℕ
  pub updated_at : ℕ

-- `NewAccount`.
unfoldable pub new_account :
    String → String → String → String → String → String → Bool → ℕ → Account
new_account id account_id branch_code account_number account_type_code account_name primary at =
    record {
      id = id;
      account_id = account_id;
      branch_code = branch_code;
      account_number = account_number;
      account_type_code = account_type_code;
      account_name = account_name;
      primary_flag = primary;
      label = none;
      created_at = at;
      updated_at = at;
    }

-- `Balance`.
pub record Balance : Type 0 where
  pub account_id : String
  pub currency_code : String
  pub amount : ℤ
  pub base_date : String
  pub base_time : String

-- `VirtualAccount`.
pub record VirtualAccount : Type 0 where
  pub id : String
  pub virtual_account_id : String
  pub branch_code : String
  pub account_number : String
  pub memo : Option String
  pub expires_on : Option ℕ
  pub invoice_id : Option String
  pub created_at : ℕ
  pub updated_at : ℕ

-- `NewVirtualAccount`.
unfoldable pub new_virtual_account :
    String → String → String → String → Option String → Option ℕ → ℕ → VirtualAccount
new_virtual_account id va_id branch_code account_number memo expires_on at = record {
  id = id;
  virtual_account_id = va_id;
  branch_code = branch_code;
  account_number = account_number;
  memo = memo;
  expires_on = expires_on;
  invoice_id = none;
  created_at = at;
  updated_at = at;
}

-- A row of virtual_accounts, where `expires_on` is a day, written as a text.
pub record VirtualAccountRow : Type 0 where
  pub id : String
  pub virtual_account_id : String
  pub branch_code : String
  pub account_number : String
  pub memo : Option String
  pub expires_on : Option String
  pub invoice_id : Option String
  pub created_at : ℕ
  pub updated_at : ℕ
