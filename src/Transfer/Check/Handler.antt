-- ===== src/Transfer/Check/Handler.antt =====
-- What `CheckStatusHandler.Handle`
-- (internal/modules/transfer/application/handler_check_status.go) does, over all its paths.
use go_sunabar_payments.Base.{
  ◌+◌, ◌≡◌, refl, sym, ap, ◌∙◌, ◌⊎◌, inl, inr, true, [], Option, none, some,
}
use mathlib.Core.Path.{subst}
use go_sunabar_payments.Platform.Errors.{Error, Result, ok, err}
use go_sunabar_payments.Platform.Bank.{TransferStatusResult}
use go_sunabar_payments.Platform.World.{Db, World, ◌>>=◌, on_error, lift}
use go_sunabar_payments.Transfer.Status.{Status, is_terminal}
use go_sunabar_payments.Transfer.Entity.{Transfer}
use go_sunabar_payments.Transfer.Payload.{StatusCheckPayload, unmarshal_status_check}
use go_sunabar_payments.Transfer.Repository.{find_transfer, find_by_id}
use go_sunabar_payments.Transfer.Repository.Locking.{found_id}
use go_sunabar_payments.Transfer.Repository.Finding.{find_by_id_ok, Keeps-find_by_id}
use go_sunabar_payments.Transfer.Gateway.{get_transfer_status}
use go_sunabar_payments.Transfer.Check.{map_sunabar_status, observe, handle}
use go_sunabar_payments.Transfer.Check.Outcome.{Observed, observed}
use go_sunabar_payments.Outbox.Event.{Event}

-- The handler returns an error before it has looked at a transfer.
abbrev pub Stopped : Event → World → Type 0
Stopped evt w =
    (e : Error) × ((handle evt w).0 ≡ err e)
    × ((handle evt w).1.committed ≡ w.committed)
    × ((handle evt w).1.requests ≡ w.requests)

-- What the bank reports of the transfer `t` that an event names: the state `to`.
pub record Reported (evt : Event) (w : World) (t : Transfer) (to : Status) : Type 0 where
  pub payload : StatusCheckPayload
  pub answer : TransferStatusResult
  pub decoded : unmarshal_status_check evt.payload ≡ ok payload
  pub reported : w.outside.transfer_status w.calls payload.apply_no ≡ ok answer
  pub mapped : map_sunabar_status answer.status ≡ some to
  pub found : find_transfer payload.transfer_id w.committed.transfers ≡ some t

record Observes (evt : Event) (w : World) : Type 0 where
  t : Transfer
  to : Status
  w' : World
  report : Reported evt w t to
  runs : handle evt w ≡ observe t to report.answer.status_detail report.payload.apply_no w'
  committed : w'.committed ≡ w.committed
  others : w'.others ≡ w.others
  requests : w'.requests ≡ w.requests

module _ (evt : Event) (w : World) (p : StatusCheckPayload)
    (q : unmarshal_status_check evt.payload ≡ ok p) where
  abbrev called : World
  called = record w { calls = w.calls + 1 }

  module _ (res : TransferStatusResult)
      (reported : w.outside.transfer_status w.calls p.apply_no ≡ ok res) where
    Observes-found :
        (to : Status)
        → map_sunabar_status res.status ≡ some to
        → (r : Result Transfer) → (find_by_id p.transfer_id called).0 ≡ r
        → Stopped evt w ⊎ Observes evt w
    unfolding handle get_transfer_status on_error lift ◌>>=◌
    Observes-found to m (ok t) f = inr (record {
      t = t;
      to = to;
      w' = (find_by_id p.transfer_id called).1;
      report = record {
        payload = p;
        answer = res;
        decoded = q;
        reported = reported;
        mapped = m;
        found = find_by_id_ok p.transfer_id called f;
      };
      runs = rw q (rw reported (rw m (rw f refl)));
      committed = ((Keeps-find_by_id p.transfer_id).at called).committed;
      others = ((Keeps-find_by_id p.transfer_id).at called).others;
      requests = ((Keeps-find_by_id p.transfer_id).at called).requests;
    })
    Observes-found to m (err e) f =
        let same = (Keeps-find_by_id p.transfer_id).at called in
        inl (rw q (rw reported (rw m (rw f (_, refl, same.committed, same.requests)))))

    Observes-mapped :
        (o : Option Status) → map_sunabar_status res.status ≡ o → Stopped evt w ⊎ Observes evt w
    unfolding handle get_transfer_status on_error lift ◌>>=◌
    Observes-mapped (some to) m = Observes-found to m (find_by_id p.transfer_id called).0 refl
    Observes-mapped none m = inl (rw q (rw reported (rw m (_, refl, refl, refl))))

  Observes-reported :
      (r : Result TransferStatusResult)
      → w.outside.transfer_status w.calls p.apply_no ≡ r
      → Stopped evt w ⊎ Observes evt w
  unfolding handle get_transfer_status on_error lift ◌>>=◌
  Observes-reported (ok res) h = Observes-mapped res h (map_sunabar_status res.status) refl
  Observes-reported (err e) h = inl (rw q (rw h (_, refl, refl, refl)))

observes :
    (evt : Event) (w : World) (r : Result StatusCheckPayload)
    → unmarshal_status_check evt.payload ≡ r
    → Stopped evt w ⊎ Observes evt w
unfolding handle on_error lift ◌>>=◌
observes evt w (ok p) q =
    Observes-reported evt w p q (w.outside.transfer_status w.calls p.apply_no) refl
observes evt w (err e) q = inl (rw q (_, refl, refl, refl))

stored_under_id :
    {evt : Event} {w : World} {t : Transfer} {to : Status} (r : Reported evt w t to)
    → find_transfer t.id w.committed.transfers ≡ some t
stored_under_id {w = w} r =
    ap (λ i. find_transfer i w.committed.transfers)
      (found_id r.payload.transfer_id w.committed.transfers r.found)
    ∙ r.found

Observed-handle :
    (evt : Event) (w : World)
    → w.others ≡ []
    → (o : Observes evt w) → Observed o.t o.to o.w' (handle evt w)
Observed-handle evt w alone o =
    subst (λ x. Observed o.t o.to o.w' x) (sym o.runs)
      (observed o.t o.to o.report.answer.status_detail o.report.payload.apply_no o.w'
        (o.others ∙ alone)
        (ap (λ (db : Db). find_transfer o.t.id db.transfers) o.committed
          ∙ stored_under_id o.report))

-- When the handler returns no error, the transfer of the event stands in a terminal state: an event
-- that the relay marks as sent needs no further look at the bank. No other process commits in
-- between.
pub success_is_final :
    (evt : Event) (w : World)
    → w.others ≡ []
    → (handle evt w).0 ≡ ok tt
    → (p : StatusCheckPayload) × (t : Transfer) × (unmarshal_status_check evt.payload ≡ ok p)
      × (find_transfer p.transfer_id (handle evt w).1.committed.transfers ≡ some t)
      × (is_terminal t.status ≡ true)
success_is_final evt w alone h = elim (observes evt w (unmarshal_status_check evt.payload) refl) [
  | inl (e, failed, _, _) ↦ absurd (not_both (handle evt w).0 e failed h)
  | inr o ↦
      let (t', stored, terminal) = (Observed-handle evt w alone o).final h in
      (
        o.report.payload,
        t',
        o.report.decoded,
        ap (λ i. find_transfer i (handle evt w).1.committed.transfers)
              (sym (found_id o.report.payload.transfer_id w.committed.transfers o.report.found))
            ∙ stored,
        terminal,
      )
]
  where
    not_both : (r : Result (Unit {0})) (e : Error) → r ≡ err e → r ≡ ok tt → ⊥
    not_both r e a b = cc
