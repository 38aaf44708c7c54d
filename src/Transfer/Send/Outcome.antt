-- ===== src/Transfer/Send/Outcome.antt =====
-- How a run of `SendToSunabarHandler.Handle` may end
-- (internal/modules/transfer/application/handler_send_to_sunabar.go).
use go_sunabar_payments.Base.{
  ◌≡◌, sym, ap, ◌∙◌, ◌⊎◌, inl, inr, [], none, some, String, Option-cases,
}
use mathlib.Core.Path.{subst}
use go_sunabar_payments.Platform.Errors.{Error, Result, ok, err}
use go_sunabar_payments.Platform.World.{Db, Outside, World}
use go_sunabar_payments.Transfer.Status.{pending}
use go_sunabar_payments.Transfer.Entity.{Transfer}
use go_sunabar_payments.Transfer.Repository.{find_transfer}
use go_sunabar_payments.Transfer.Repository.Locking.{found_id}
use go_sunabar_payments.Transfer.Send.{bank_request, answered, handle}
use go_sunabar_payments.Transfer.Send.Handler.{
  request_date, Reaches, reaches, admission, asked, answer, send_admitted, send_refused,
  answered_error,
}
use go_sunabar_payments.Outbox.Event.{Event}
use go_sunabar_payments.Transfer.Send.Conclusion.{Concluded, answered-Concluded}

-- A run of the handler that returns an error has changed no table, when no other process commits in
-- between: neither the transfer nor the outbox.
pub failure_changes_nothing :
    (evt : Event) (w : World) {x : Error}
    → w.others ≡ []
    → (handle evt w).0 ≡ err x
    → (handle evt w).1.committed ≡ w.committed
failure_changes_nothing evt w {x} alone h = elim (reaches evt w) [
  | inl stops ↦ stops.committed
  | inr (t, w', r) ↦ elim (Option-cases (admission w')) [
    | inl free ↦
        rw (r.runs, send_admitted t w' free)
          (answered_error t (answer t w') (asked t w') {x = x} (r.frame.others ∙ alone) (
              ap (λ (o : Result (Unit {0}) × World). o.0) (sym (r.runs ∙ send_admitted t w' free))
              ∙ h)
            ∙ r.frame.committed)
    | inr (e, closed) ↦ rw (r.runs, send_refused t w' closed) r.frame.committed
  ]
]

at_id :
    (evt : Event) (w : World) (t : Transfer) (w' : World)
    → Reaches evt w t w'
    → find_transfer t.id w.committed.transfers ≡ some t
at_id evt w t w' r =
    ap (λ i. find_transfer i w.committed.transfers)
      (found_id r.payload.transfer_id w.committed.transfers r.found)
    ∙ r.found

concluded :
    (evt : Event) (w : World) (t : Transfer) (w' : World)
    → w.others ≡ []
    → (handle evt w).0 ≡ ok tt
    → Reaches evt w t w'
    → admission w' ≡ none
    → Concluded t
        (w.outside.request_transfer w.calls (bank_request t (request_date w')))
        w.committed
        (handle evt w).1.committed
concluded evt w t w' alone h r free =
    let run : handle evt w ≡ answered t (answer t w') (asked t w') =
      r.runs ∙ send_admitted t w' free in
    let c =
      answered-Concluded t (answer t w') (asked t w') (r.frame.others ∙ alone)
        (ap (λ (db : Db). find_transfer t.id db.transfers) r.frame.committed ∙ at_id evt w t w' r)
        (ap (λ (o : Result (Unit {0}) × World). o.0) (sym run) ∙ h) in
    let same : answer t w' ≡ w.outside.request_transfer w.calls (bank_request t (request_date w')) =
      ap (λ (o : Outside). o.request_transfer w'.calls (bank_request t (request_date w')))
        r.frame.outside
      ∙ ap (λ n. w.outside.request_transfer n (bank_request t (request_date w'))) r.frame.calls in
    subst (λ x. Concluded t x w.committed (handle evt w).1.committed) same
      (subst (λ x. Concluded t (answer t w') x (handle evt w).1.committed) r.frame.committed
        (subst
          (λ (o : Result (Unit {0}) × World). Concluded t (answer t w') w'.committed o.1.committed)
          (sym run) c))

-- A run of the handler that returns no error, while no other process commits in between, has changed
-- no table, or it has concluded one transfer that was PENDING as the bank's answer to its request
-- says: REQUESTED under the bank's number with the notification and the order to look up the result,
-- or FAILED for an error that is not worth another attempt, with the notification.
pub successful_run :
    (evt : Event) (w : World)
    → w.others ≡ []
    → (handle evt w).0 ≡ ok tt
    → ((handle evt w).1.committed ≡ w.committed)
      ⊎ ((t : Transfer) × (date : String) × (find_transfer t.id w.committed.transfers ≡ some t)
          × (t.status ≡ pending)
          × Concluded t
              (w.outside.request_transfer w.calls (bank_request t date))
              w.committed
              (handle evt w).1.committed)
successful_run evt w alone h = elim (reaches evt w) [
  | inl stops ↦ inl stops.committed
  | inr (t, w', r) ↦ elim (Option-cases (admission w')) [
    | inl free ↦
        inr (
          t,
          request_date w',
          at_id evt w t w' r,
          r.is_pending,
          concluded evt w t w' alone h r free,
        )
    | inr (e, closed) ↦ inl (rw (r.runs, send_refused t w' closed) r.frame.committed)
  ]
]
