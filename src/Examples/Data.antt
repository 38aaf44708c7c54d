-- ===== src/Examples/Data.antt =====
-- A service with one transfer, and a bank that accepts what it is asked for.
use go_sunabar_payments.Base.{false, ◌*◌, [], ◌∷◌, none, some, str_eq, ◌==◌, if◌then◌else◌}
use go_sunabar_payments.Base.Int.{pos}
use go_sunabar_payments.Platform.Errors.{ok, err, api_error}
use go_sunabar_payments.Platform.World.{Db, Outside, World}
use go_sunabar_payments.Transfer.Status.{pending, requested}
use go_sunabar_payments.Transfer.Entity.{Params, Transfer}
use go_sunabar_payments.Transfer.Payload.{
  StatusCheckPayload, marshal_requested, marshal_status_check, event_transfer_requested,
  event_transfer_status_check,
}
use go_sunabar_payments.Transfer.Breaker.{default_config, CircuitBreaker, closed, opened, second}
use go_sunabar_payments.Transfer.Request.{Command, requested_payload}
use go_sunabar_payments.Outbox.Event.{Event, OutboxRow}
use go_sunabar_payments.Outbox.Publisher.{new_row}

abbrev pub params : Params
params = record {
  amount = pos 1000;
  source_account_id = "acc-1";
  dest_bank_code = "0310";
  dest_branch_code = "101";
  dest_account_type = "1";
  dest_account_num = "1234567";
  dest_account_name = "TARO";
}

abbrev pub transfer : Transfer
transfer = record {
  id = "t-1";
  app_request_id = "req-1";
  api_idempotency_key = "key-1";
  status = pending;
  params = params;
  apply_no = none;
  last_error = none;
  version = 1;
  created_at = 0;
  updated_at = 0;
}

abbrev pub transfer_asked : Transfer
transfer_asked = record transfer { status = requested; apply_no = some "apply-1"; version = 2 }

abbrev pub request_event : Event
request_event = record {
  id = "e-1";
  aggregate_type = "transfer";
  aggregate_id = "t-1";
  event_type = event_transfer_requested;
  payload = marshal_requested (requested_payload transfer);
  occurred_at = 0;
}

abbrev pub check_payload : StatusCheckPayload
check_payload = record { transfer_id = "t-1"; apply_no = "apply-1" }

abbrev pub check_event : Event
check_event = record {
  id = "e-2";
  aggregate_type = "transfer";
  aggregate_id = "t-1";
  event_type = event_transfer_status_check;
  payload = marshal_status_check check_payload;
  occurred_at = 0;
}

abbrev pub outside : Outside
outside = record {
  clock = λ n. n * second;
  fresh_id = λ n. if n == 0 then "id-0" else if n == 1 then "id-1" else "id-2";
  format_date = λ _. "2026-01-01";
  parse_date = λ _. 0;
  request_transfer =
      λ n req. ok (record { apply_no = "apply-1"; status = "AcceptedToBank"; accept_at = 0 });
  transfer_status = λ n apply_no.
      ok (record { apply_no = apply_no; status = "Settled"; status_detail = ""; updated_at = 0 });
  list_transactions = λ n account from to. ok [];
  deliver = λ n notice. none;
  parse_day = λ day. if str_eq day "2026-12-31" then some 7 else none;
  get_accounts = λ n. ok [];
  locked = λ n id. false;
  get_balance = λ n account_id. err (api_error 404 "no account");
  issue_virtual_account = λ n req. ok (record {
    virtual_account_id = "va-1";
    branch_code = "502";
    account_number = "7654321";
    expires_on = req.expires_on;
  });
}

-- A bank that is down, and a sender that refuses.
abbrev pub outside_down : Outside
outside_down = record outside {
  request_transfer = λ n req. err (api_error 503 "busy");
  deliver = λ n notice. some (api_error 500 "no mail");
}

abbrev pub no_rows : Db
no_rows = record {
  transfers = [];
  outbox_events = [];
  event_processed = [];
  invoices = [];
  incoming_transactions = [];
  accounts = [];
  virtual_accounts = [];
}

abbrev pub breaker : CircuitBreaker
breaker = record {
  failure_threshold = 3;
  reset_timeout = 30 * second;
  failure_rate = default_config.failure_rate;
  min_requests = 5;
  window_size = 30 * second;
  half_open_max_calls = 1;
  state = closed;
  failure_count = 0;
  opened_at = 0;
  half_open_inflight = 0;
  samples = [];
}

abbrev pub empty_world : World
empty_world = record {
  outside = outside;
  committed = no_rows;
  working = no_rows;
  faults = [];
  others = [];
  ticks = 0;
  ids = 0;
  calls = 0;
  breaker = breaker;
  requests = [];
  notices = [];
  issues = [];
}

abbrev pub world : World
world = record empty_world { committed = record no_rows { transfers = transfer ∷ [] } }

abbrev pub world_down : World
world_down = record world { outside = outside_down }

abbrev pub world_open : World
world_open = record world { breaker = record breaker { state = opened } }

abbrev pub world_asked : World
world_asked = record empty_world { committed = record no_rows { transfers = transfer_asked ∷ [] } }

abbrev pub command : Command
command = record { app_request_id = "req-1"; params = params }

abbrev pub row : OutboxRow
row = new_row request_event 0
