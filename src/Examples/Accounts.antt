-- ===== src/Examples/Accounts.antt =====
-- Accounts: one that is known, listed by the bank, and a virtual account that is issued.
use go_sunabar_payments.Base.{◌≡◌, ◌≢◌, refl, true, false, [], ◌∷◌, none, some}
use go_sunabar_payments.Platform.Errors.{ok}
use go_sunabar_payments.Platform.Bank as Bank
use go_sunabar_payments.Platform.Json.{text, object}
use go_sunabar_payments.Platform.World.{World, pure, ◌>>=◌, on_error, now, new_id}
use go_sunabar_payments.Platform.Sql.{
  statement, on_working, exec_tx, interfere, committed_with, finished, begun, do_tx,
}
use go_sunabar_payments.Account.Entity.{Account, new_account}
use go_sunabar_payments.Account.Repository.{
  overwritten, has_id, upsert_rows, upsert_row, upsert_by_account_id, account_with,
}
use go_sunabar_payments.Account.Sync.{get_accounts, upsert_each, upsert_accounts, sync_accounts}
use go_sunabar_payments.Account.Sync.Effects.{Synced, sync_ok, synced_id_is_lost}
use go_sunabar_payments.Account.Issue.{IssueVirtualAccountCommand, issue_virtual_account}
use go_sunabar_payments.Account.Issue.Effects.{Issued, issue-Issued}
use go_sunabar_payments.Account.Issue.Conflict.{issue_va-no_conflict}
use go_sunabar_payments.Account.Transport.{status_code_of, issue_va}
use go_sunabar_payments.Examples.Data.{outside, no_rows, empty_world}

abbrev listed : Bank.Account
listed = record {
  account_id = "acc-1";
  branch_code = "101";
  account_number = "1234567";
  account_type_code = "1";
  account_name = "TARO";
  primary_account_flag = true;
}

abbrev known : Account
known = record {
  id = "id-9";
  account_id = "acc-1";
  branch_code = "100";
  account_number = "1234567";
  account_type_code = "1";
  account_name = "TARO";
  primary_flag = false;
  label = some "main";
  created_at = 0;
  updated_at = 0;
}

abbrev world_listed : World
world_listed = record empty_world {
  outside = record outside { get_accounts = λ n. ok (listed ∷ []) };
  committed = record no_rows { accounts = known ∷ [] };
}

abbrev taken_over : Account
taken_over = record known { id = "id-0"; branch_code = "101"; primary_flag = true; label = none }

sync_ok_example : Synced world_listed (taken_over ∷ []) (sync_accounts world_listed).1
unfolding sync_accounts get_accounts upsert_accounts upsert_each upsert_by_account_id upsert_row
    upsert_rows new_account do_tx begun finished committed_with interfere exec_tx on_working
    statement now new_id on_error pure ◌>>=◌
sync_ok_example = sync_ok world_listed {ds = taken_over ∷ []} refl

synced_id_is_lost_example :
    (account_with "acc-1" (sync_accounts world_listed).1.committed.accounts
      ≡ some (overwritten taken_over known))
    × (has_id "id-0" (sync_accounts world_listed).1.committed.accounts ≡ false)
unfolding sync_accounts get_accounts upsert_accounts upsert_each upsert_by_account_id upsert_row
    upsert_rows new_account do_tx begun finished committed_with interfere exec_tx on_working
    statement now new_id on_error pure ◌>>=◌
synced_id_is_lost_example = synced_id_is_lost world_listed taken_over known refl refl refl

abbrev command : IssueVirtualAccountCommand
command = record {
  memo = "rent";
  expires_on = some 7;
  ra_id = "ra-1";
  va_type_code = "";
  issue_request_count = "";
  va_contract_auth_key = "";
  va_holder_name_kana = "TARO";
  va_holder_name_pos = "";
}

issue-Issued_example : Issued command empty_world (issue_virtual_account command empty_world)
issue-Issued_example = issue-Issued command empty_world

issue_va-no_conflict_example :
    status_code_of (issue_va (object (("memo", text "rent") ∷ [])) empty_world).0 ≢ 409
issue_va-no_conflict_example =
    issue_va-no_conflict (object (("memo", text "rent") ∷ [])) empty_world tt (λ cmd. tt)
