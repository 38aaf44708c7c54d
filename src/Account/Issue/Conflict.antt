-- ===== src/Account/Issue/Conflict.antt =====
-- Which errors issuing a virtual account returns
-- (internal/modules/account/application/usecase.go, infrastructure/repository_sql.go), and the answers
-- of internal/modules/account/transport_http.go.
use go_sunabar_payments.Base.{
  ◌≡◌, ◌≢◌, refl, some, String, str_eq, arith, inl, inr, Bool-cases, Option-cases,
}
use go_sunabar_payments.Platform.Errors.{Result, ok, err, account_already_exists}
use go_sunabar_payments.Platform.Bank.{VirtualAccountRequest}
use go_sunabar_payments.Platform.Bank as Bank
use go_sunabar_payments.Platform.Json.{Json}
use go_sunabar_payments.Platform.World.{Db, World, ◌>>=◌, on_error, new_id}
use go_sunabar_payments.Platform.Sql.Never.{
  AvoidsResult, Clean, Ends, Never, Never-pure, Never-bind, Never-wrapped, Never-now, Never-new_id,
  Never-exec_tx, Never-do_tx,
}
use go_sunabar_payments.Account.Entity.{VirtualAccount, VirtualAccountRow}
use go_sunabar_payments.Account.Repository.{
  row_of, has_virtual_account, insert_virtual_account_row, insert_virtual_account,
}
use go_sunabar_payments.Account.Issue.{
  IssueVirtualAccountCommand, request_of, issue_at_bank, issued_as, store_issued,
  issue_virtual_account,
}
use go_sunabar_payments.Account.Transport.{
  status_code_of, issued_reply, issue_decoded, decode_issue, issue_va,
}

row-Avoids :
    (v : VirtualAccountRow) (db : Db)
    → AvoidsResult account_already_exists (insert_virtual_account_row v db)
unfolding insert_virtual_account_row
row-Avoids v db = elim (Bool-cases (has_virtual_account v db.virtual_accounts)) [
  | inl y ↦ rw y refl
  | inr n ↦ rw n tt
]

Never-insert : (va : VirtualAccount) → Never account_already_exists (insert_virtual_account va)
unfolding insert_virtual_account
Never-insert va =
    Never-bind account_already_exists _ _
      (Never-wrapped account_already_exists _ _ (record {
        at = λ w.
            (Never-exec_tx account_already_exists
                (insert_virtual_account_row (row_of w.outside.format_date va))
                (row-Avoids (row_of w.outside.format_date va))).at
              w;
      }))
      (λ n. Never-pure account_already_exists tt)

Never-store :
    (cmd : IssueVirtualAccountCommand) (res : Bank.VirtualAccount)
    → Never account_already_exists (store_issued cmd res)
unfolding store_issued
Never-store cmd res =
    Never-bind account_already_exists _ _ (Never-new_id account_already_exists) (λ id.
      Never-bind account_already_exists _ _ (Never-now account_already_exists) (λ at.
        Never-bind account_already_exists _ _
          (Never-do_tx account_already_exists _ (Never-insert (issued_as id cmd res at)))
          (λ u. Never-pure account_already_exists (issued_as id cmd res at))))

-- The bank's answer to the request is no such error either.
abbrev pub BankAvoids : IssueVirtualAccountCommand → World → Type 0
BankAvoids cmd w =
    AvoidsResult account_already_exists
      (w.outside.issue_virtual_account w.calls (request_of (w.outside.fresh_id w.ids) cmd))

issue-Ends :
    (cmd : IssueVirtualAccountCommand) (w : World)
    → Clean account_already_exists w
    → BankAvoids cmd w
    → Ends account_already_exists (issue_virtual_account cmd w)
unfolding issue_virtual_account issue_at_bank new_id on_error ◌>>=◌
issue-Ends cmd w c b =
    go (w.outside.issue_virtual_account w.calls (request_of (w.outside.fresh_id w.ids) cmd)) refl b
  where
    go :
        (r : Result Bank.VirtualAccount)
        → w.outside.issue_virtual_account w.calls (request_of (w.outside.fresh_id w.ids) cmd) ≡ r
        → AvoidsResult account_already_exists r
        → Ends account_already_exists (issue_virtual_account cmd w)
    go (ok res) q b = rw q ((Never-store cmd res).at _ c)
    go (err e) q b = rw q (b, c)

reply-no_conflict :
    (o : Result VirtualAccount × World)
    → Ends account_already_exists o
    → status_code_of (issued_reply o).0 ≢ 409
unfolding issued_reply
reply-no_conflict (ok va, w) h = omega arith
reply-no_conflict (err e, w) h = rw h.0 (omega arith)

-- The answer 409 is given for no body, whatever the tables hold, when neither the driver nor the bank
-- returns the error that an account exists already: the repository makes none of a duplicate.
pub issue_va-no_conflict :
    (body : Json) (w : World)
    → Clean account_already_exists w
    → ((cmd : IssueVirtualAccountCommand) → BankAvoids cmd w)
    → status_code_of (issue_va body w).0 ≢ 409
unfolding issue_va
issue_va-no_conflict body w c b = go (decode_issue body)
  where
    answered :
        (cmd : IssueVirtualAccountCommand)
        → status_code_of (issued_reply (issue_virtual_account cmd w)).0 ≢ 409
    answered cmd = reply-no_conflict (issue_virtual_account cmd w) (issue-Ends cmd w c (b cmd))

    go :
        (r : Result (IssueVirtualAccountCommand × String))
        → status_code_of (issue_decoded r w).0 ≢ 409
    go (err e) = omega arith
    go (ok (cmd, day)) = elim (Bool-cases (str_eq day "")) [
      | inl y ↦ rw y (answered cmd)
      | inr n ↦ elim (Option-cases (w.outside.parse_day day)) [
        | inl z ↦ rw (n, z) (omega arith)
        | inr (at, z) ↦ rw (n, z) (answered (record cmd { expires_on = some at }))
      ]
    ]
