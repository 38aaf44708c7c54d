-- ===== src/Transfer/Payload/Roundtrip.antt =====
-- What `json.Unmarshal` reads back of the payloads of internal/modules/transfer/domain/events.go.
use go_sunabar_payments.Base.{◌≡◌, refl, true, eq_iff, arith}
use go_sunabar_payments.Base.Int.{ℤ, eqb_ℤ, InRange64, wrap64_id}
use go_sunabar_payments.Platform.Errors.{ok}
use go_sunabar_payments.Transfer.Payload.{
  RequestedPayload, StatusCheckPayload, StateChangedPayload, marshal_requested,
  marshal_status_check, marshal_state_changed, unmarshal_requested, unmarshal_status_check,
  unmarshal_state_changed,
}

eqb_self : (n : ℤ) → eqb_ℤ n n ≡ true
eqb_self n = ground arith

-- Reading the payload of a request for an int64 back gives what was written.
pub requested_roundtrip :
    (p : RequestedPayload) → InRange64 p.amount → unmarshal_requested (marshal_requested p) ≡ ok p
unfolding unmarshal_requested marshal_requested
requested_roundtrip p fits = rw (wrap64_id p.amount fits, eqb_self p.amount) refl

-- Reading the payload of an order to look up a result back gives what was written.
pub status_check_roundtrip :
    (p : StatusCheckPayload) → unmarshal_status_check (marshal_status_check p) ≡ ok p
unfolding unmarshal_status_check marshal_status_check
status_check_roundtrip p = refl

-- Reading the payload of a change of state back gives what was written, also where `omitempty` has
-- left fields out.
pub state_changed_roundtrip :
    (p : StateChangedPayload) → unmarshal_state_changed (marshal_state_changed p) ≡ ok p
unfolding unmarshal_state_changed marshal_state_changed
state_changed_roundtrip p = ground (arith, eq_iff p.apply_no "", eq_iff p.error_message "")
