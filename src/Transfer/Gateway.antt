-- ===== src/Transfer/Gateway.antt =====
-- What the handlers of internal/modules/transfer/application share: the calls of the bank behind
-- the circuit breaker, the notification event of a state (state_event.go) and the errors that are
-- worth another attempt.
use go_sunabar_payments.Base.{ℕ, ◌+◌, Bool, true, [], ◌∷◌, ◌++◌, Option, none, some, String, leb}
use go_sunabar_payments.Platform.Errors.{Error, Result, ok, err, as_api_error}
use go_sunabar_payments.Platform.Json.{Json}
use go_sunabar_payments.Platform.Bank.{TransferRequest, TransferResult, TransferStatusResult}
use go_sunabar_payments.Platform.World.{Action}
use go_sunabar_payments.Transfer.Breaker.{allow, record_success, record_failure}
use go_sunabar_payments.Transfer.Status.{
  Status, pending, requested, awaiting_approval, approved, settled, failed,
}
use go_sunabar_payments.Transfer.Payload.{
  event_transfer_accepted_to_bank, event_transfer_awaiting_approval, event_transfer_settled,
  event_transfer_failed,
}
use go_sunabar_payments.Outbox.Event.{Event}

abbrev refusal : Option Error → Result (Unit {0})
refusal none = ok tt
refusal (some e) = err e

-- `circuitBreaker.Allow`, `RecordSuccess` and `RecordFailure`.
unfoldable pub breaker_allow : ℕ → Action (Unit {0})
breaker_allow at w = let (b, e) = allow w.breaker at in (refusal e, record w { breaker = b })

unfoldable pub breaker_success : ℕ → Action (Unit {0})
breaker_success at w = (ok tt, record w { breaker = record_success w.breaker at })

unfoldable pub breaker_failure : ℕ → Action (Unit {0})
breaker_failure at w = (ok tt, record w { breaker = record_failure w.breaker at })

-- `client.RequestTransfer`: the answer, be it an error, is returned.
unfoldable pub request_transfer : TransferRequest → Action (Result TransferResult)
request_transfer req w = (
  ok (w.outside.request_transfer w.calls req),
  record w { calls = w.calls + 1; requests = w.requests ++ req ∷ [] },
)

-- `client.GetTransferStatus`.
unfoldable pub get_transfer_status : String → Action TransferStatusResult
get_transfer_status apply_no w =
    (w.outside.transfer_status w.calls apply_no, record w { calls = w.calls + 1 })

-- `Format("2006-01-02")`.
unfoldable pub format_date : ℕ → Action String
format_date at w = (ok (w.outside.format_date at), w)

abbrev server_error : Option ℕ → Bool
server_error none = true
server_error (some status) = leb 500 status

-- `isRetryable`.
unfoldable pub is_retryable : Error → Bool
is_retryable e = server_error (as_api_error e)

-- `mapStateChangeEvent`; the empty text asks for no event.
unfoldable pub map_state_change_event : Status → String
map_state_change_event requested = event_transfer_accepted_to_bank
map_state_change_event awaiting_approval = event_transfer_awaiting_approval
map_state_change_event settled = event_transfer_settled
map_state_change_event failed = event_transfer_failed
map_state_change_event pending = ""
map_state_change_event approved = ""

-- An event of a transfer.
abbrev pub transfer_event : String → String → String → Json → ℕ → Event
transfer_event id transfer_id event_type payload at = record {
  id = id;
  aggregate_type = "transfer";
  aggregate_id = transfer_id;
  event_type = event_type;
  payload = payload;
  occurred_at = at;
}
