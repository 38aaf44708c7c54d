-- ===== src/Transfer/Send/Handler.antt =====
-- What `SendToSunabarHandler.Handle`
-- (internal/modules/transfer/application/handler_send_to_sunabar.go) does, over all its paths.
use go_sunabar_payments.Base.{
  ◌+◌, ◌≡◌, refl, ap, ◌∙◌, ◌⊎◌, inl, inr, Bool, true, false, List, [], ◌∷◌, ◌++◌, Option, none,
  some, String, arith, Bool-cases, Option-cases,
}
use go_sunabar_payments.Platform.Errors.{Error, Result, ok, err, sentinel, skip_attempt, joined}
use go_sunabar_payments.Platform.Bank.{TransferRequest, TransferResult}
use go_sunabar_payments.Platform.World.{World, pure, ◌>>=◌, on_error, lift, now}
use go_sunabar_payments.Platform.Sql.Keeps.{Frame, Frame-refl}
use go_sunabar_payments.Platform.Sql.Atomicity.{do_tx-Quiet, do_tx_err}
use go_sunabar_payments.Transfer.Status.{pending, same_status}
use go_sunabar_payments.Transfer.Entity.{Transfer}
use go_sunabar_payments.Transfer.Breaker.{allow}
use go_sunabar_payments.Transfer.Payload.{RequestedPayload, unmarshal_requested}
use go_sunabar_payments.Transfer.Repository.{find_transfer, find_by_id}
use go_sunabar_payments.Transfer.Repository.Finding.{find_by_id_ok, Keeps-find_by_id}
use go_sunabar_payments.Transfer.Gateway.{
  breaker_allow, breaker_success, breaker_failure, request_transfer, format_date, is_retryable,
}
use go_sunabar_payments.Transfer.Send.{
  bank_request, accept_transfer, fail_transfer, answered, send, handle,
}
use go_sunabar_payments.Transfer.Send.Effects.{Keeps-accept_transfer, Keeps-fail_transfer}
use go_sunabar_payments.Outbox.Event.{Event}

-- The handler hands the transfer `t`, PENDING in the committed tables, on to `send` from `w'`, which
-- differs from `w` in the statements used up only.
pub record Reaches (evt : Event) (w : World) (t : Transfer) (w' : World) : Type 0 where
  pub frame : Frame w w'
  pub payload : RequestedPayload
  pub decoded : unmarshal_requested evt.payload ≡ ok payload
  pub found : find_transfer payload.transfer_id w.committed.transfers ≡ some t
  pub is_pending : t.status ≡ pending
  pub runs : handle evt w ≡ send t w'

-- The handler has done nothing but use up statements.
abbrev pub Stops : Event → World → Type 0
Stops evt w = Frame w (handle evt w).1

module _ (evt : Event) (w : World) (p : RequestedPayload)
    (q : unmarshal_requested evt.payload ≡ ok p) where
  Reaches-pending :
      (t : Transfer)
      → (find_by_id p.transfer_id w).0 ≡ ok t
      → (b : Bool) → same_status t.status pending ≡ b
      → Stops evt w ⊎ ((t : Transfer) × (w' : World) × Reaches evt w t w')
  unfolding handle on_error lift pure ◌>>=◌
  Reaches-pending t f true e = inr (
    t,
    (find_by_id p.transfer_id w).1,
    record {
      frame = (Keeps-find_by_id p.transfer_id).at w;
      payload = p;
      decoded = q;
      found = find_by_id_ok p.transfer_id w f;
      is_pending = ground arith;
      runs = rw q (rw f (rw e));
    },
  )
  Reaches-pending t f false e = inl (rw q (rw f (rw e ((Keeps-find_by_id p.transfer_id).at w))))

  Reaches-found :
      (r : Result Transfer)
      → (find_by_id p.transfer_id w).0 ≡ r
      → Stops evt w ⊎ ((t : Transfer) × (w' : World) × Reaches evt w t w')
  unfolding handle on_error lift pure ◌>>=◌
  Reaches-found (ok t) f = Reaches-pending t f (same_status t.status pending) refl
  Reaches-found (err e) f = inl (rw q (rw f ((Keeps-find_by_id p.transfer_id).at w)))

Reaches-decoded :
    (evt : Event) (w : World) (r : Result RequestedPayload)
    → unmarshal_requested evt.payload ≡ r
    → Stops evt w ⊎ ((t : Transfer) × (w' : World) × Reaches evt w t w')
unfolding handle on_error lift ◌>>=◌
Reaches-decoded evt w (ok p) q = Reaches-found evt w p q (find_by_id p.transfer_id w).0 refl
Reaches-decoded evt w (err e) q = inl (rw q (Frame-refl w))

-- Every run of the handler stops early or sends a pending transfer.
pub reaches :
    (evt : Event) (w : World) → Stops evt w ⊎ ((t : Transfer) × (w' : World) × Reaches evt w t w')
reaches evt w = Reaches-decoded evt w (unmarshal_requested evt.payload) refl

-- The date of the request, and the world once the bank has been asked.
abbrev pub request_date : World → String
request_date w = w.outside.format_date (w.outside.clock (w.ticks + 1))

abbrev pub admission : World → Option Error
admission w = (allow w.breaker (w.outside.clock w.ticks)).1

abbrev pub asked : Transfer → World → World
asked t w = record w {
  ticks = w.ticks + 1 + 1;
  calls = w.calls + 1;
  breaker = (allow w.breaker (w.outside.clock w.ticks)).0;
  requests = w.requests ++ bank_request t (request_date w) ∷ [];
}

abbrev pub answer : Transfer → World → Result TransferResult
answer t w = w.outside.request_transfer w.calls (bank_request t (request_date w))

pub send_admitted :
    (t : Transfer) (w : World) → admission w ≡ none → send t w ≡ answered t (answer t w) (asked t w)
unfolding send breaker_allow request_transfer format_date now on_error ◌>>=◌
send_admitted t w h = rw h refl

pub send_refused :
    (t : Transfer) (w : World) {e : Error}
    → admission w ≡ some e
    → send t w ≡ (
      err (joined (sentinel skip_attempt) e),
      record w { ticks = w.ticks + 1; breaker = (allow w.breaker (w.outside.clock w.ticks)).0 },
    )
unfolding send breaker_allow request_transfer format_date now on_error ◌>>=◌
send_refused t w h = rw h refl

answered_requests :
    (t : Transfer) (r : Result TransferResult) (w : World)
    → (answered t r w).1.requests ≡ w.requests
unfolding answered now breaker_success breaker_failure ◌>>=◌
answered_requests t (ok res) w =
    (do_tx-Quiet (accept_transfer t res.apply_no) _ (Keeps-accept_transfer t res.apply_no)).requests
answered_requests t (err e) w = elim (Bool-cases (is_retryable e)) [
  | inl y ↦ rw y refl
  | inr n ↦ rw n (do_tx-Quiet (fail_transfer t e) _ (Keeps-fail_transfer t e)).requests
]

pub answered_error :
    (t : Transfer) (r : Result TransferResult) (w : World) {x : Error}
    → w.others ≡ []
    → (answered t r w).0 ≡ err x
    → (answered t r w).1.committed ≡ w.committed
unfolding answered now breaker_success breaker_failure ◌>>=◌
answered_error t (ok res) w alone h =
    do_tx_err (accept_transfer t res.apply_no) _ (Keeps-accept_transfer t res.apply_no) h
    ∙ rw alone refl
answered_error t (err e) w {x} alone h = elim (Bool-cases (is_retryable e)) [
  | inl y ↦ rw y refl
  | inr n ↦
      rw n (do_tx_err (fail_transfer t e) _ (Keeps-fail_transfer t e) (rw n at h) ∙ rw alone refl)
]

-- Whatever happens, a run of the handler asks the bank for one transfer at most: the one of the
-- event, as it is stored and PENDING, under the idempotency key that is stored with it.
pub one_request :
    (evt : Event) (w : World)
    → ((handle evt w).1.requests ≡ w.requests)
      ⊎ ((p : RequestedPayload) × (t : Transfer) × (date : String) × (unmarshal_requested
              evt.payload
            ≡ ok p)
          × (find_transfer p.transfer_id w.committed.transfers ≡ some t)
          × (t.status ≡ pending)
          × ((handle evt w).1.requests ≡ w.requests ++ bank_request t date ∷ []))
one_request evt w = elim (reaches evt w) [
  | inl stops ↦ inl stops.requests
  | inr (t, w', r) ↦ elim (Option-cases (admission w')) [
    | inl none_refused ↦ inr (
      r.payload,
      t,
      request_date w',
      r.decoded,
      r.found,
      r.is_pending,
      rw (r.runs, send_admitted t w' none_refused)
          (answered_requests t (answer t w') (asked t w')
            ∙ ap (λ (l : List TransferRequest). l ++ bank_request t (request_date w') ∷ [])
                r.frame.requests),
    )
    | inr (e, refused) ↦ inl (rw (r.runs, send_refused t w' refused) r.frame.requests)
  ]
]
