-- ===== src/Examples/Banking.antt =====
-- The client of the bank, with a token kept and a transfer to hand over.
use go_sunabar_payments.Base.{
  ◌*◌, ◌≡◌, ◌≤◌, ◌⊎◌, refl, true, [], none, some, str_eq, ltb, ◌+◌, arith,
}
use go_sunabar_payments.Base.Int.{pos, negsuc}
use go_sunabar_payments.Platform.Errors.{ok}
use go_sunabar_payments.Platform.Bank.{TransferRequest}
use go_sunabar_payments.Transfer.Breaker.{second}
use go_sunabar_payments.Sunabar.Json.{text, number, object, end, member}
use go_sunabar_payments.Sunabar.Number.{format_int, parse_sunabar_int}
use go_sunabar_payments.Sunabar.Number.RoundTrip.{parse-format_int}
use go_sunabar_payments.Sunabar.Session.{
  Network, OAuth2TokenSource, oauth2_token_source, Session, pure, ◌>>=◌, time_now,
}
use go_sunabar_payments.Sunabar.Auth.{kept, refreshed}
use go_sunabar_payments.Sunabar.Auth.Lifetime.{
  Fetched, ticked, Served, refreshed_cases, served_or_fetched, served_until_skew,
}
use go_sunabar_payments.Sunabar.Client.Orders.{request_transfer}
use go_sunabar_payments.Sunabar.Client.Asking.{TransferAsked, TransferAsked-once}

abbrev network : Network
network = record {
  clock = λ n. n * second;
  respond = λ n req. ok (record {
    status_code = 200;
    body = some "{\"applyNo\":\"apply-1\"}";
    tree = some (object (member "applyNo" (text "apply-1") end));
  });
  token_reply = λ n req. ok (record {
    status_code = 200;
    body = some "{}";
    tree =
        some (
          object
            (member "access_token" (text "t-1") (member "expires_in" (number (pos 3600)) end)));
  });
  parse_url = λ url. none;
  utc_date = λ at. "2026-01-01";
  jst_date = λ at. "2026-01-02";
  parse_rfc3339 = λ s. none;
  unix = λ n. 0;
}

abbrev source : OAuth2TokenSource
source = record {
  cfg = record {
    token_url = "https://bank/token";
    client_id = "id";
    client_secret = "secret";
    scope = "";
    skew_seconds = pos 30;
  };
  token = "t-0";
  expires_at = 10 * second;
}

abbrev session : Session
session = record {
  network = network;
  ticks = 3;
  calls = 0;
  client = record {
    base_url = "https://bank";
    personal_auth = oauth2_token_source source;
    corporate_auth = none;
  };
  sent = [];
  token_requests = [];
}

abbrev order : TransferRequest
order = record {
  idempotency_key = "key-1";
  source_account_id = "acc-1";
  amount = pos 1000;
  dest_bank_code = "0310";
  dest_branch_code = "101";
  dest_account_type = "1";
  dest_account_num = "1234567";
  dest_account_name = "TARO";
  transfer_date = "";
  remarks = "";
}

parse-format_int_example : parse_sunabar_int (format_int (negsuc 41)) ≡ ok (negsuc 41)
parse-format_int_example = parse-format_int (negsuc 41) (omega arith, omega arith)

TransferAsked-once_example : TransferAsked order session (request_transfer order session)
TransferAsked-once_example = TransferAsked-once order session (omega arith, omega arith)

refreshed_cases_example :
    Served source session source (refreshed source session).1
    ⊎ (((str_eq source.token "" ≡ true)
          × Fetched source session source (refreshed source session).1)
        ⊎ ((source.expires_at ≤ session.network.clock session.ticks)
            × Fetched source (ticked session) source (refreshed source session).1))
unfolding refreshed time_now ◌>>=◌ pure
refreshed_cases_example = refreshed_cases source source session refl

served_until_skew_example :
    refreshed (kept source ("t-1", pos 3600) 0) session
    ≡ served_or_fetched
        (ltb (session.network.clock session.ticks + 30 * second) (0 + 3600 * second))
        (kept source ("t-1", pos 3600) 0)
        session
served_until_skew_example =
    served_until_skew source "t-1" 3600 30 0 session refl refl (omega arith) (omega arith)
