-- ===== src/Transfer/Check/Effects.antt =====
-- What the transaction of `applyStatus` writes
-- (internal/modules/transfer/application/handler_check_status.go).
use go_sunabar_payments.Base.{
  ℕ, ◌+◌, ◌≡◌, refl, sym, ap, ◌∙◌, ◌≢◌, ◌⊎◌, inl, inr, Bool, true, false, List, [], ◌∷◌, ◌++◌,
  String, str_eq, eq_iff, arith, Bool-cases,
}
use mathlib.Core.Path.{subst}
use go_sunabar_payments.Platform.Errors.{Result, ok, wrapped}
use go_sunabar_payments.Platform.World.{Db, World, pure, ◌>>=◌, on_error, lift, now, new_id}
use go_sunabar_payments.Platform.World.Inversion.{bind_ok, on_error_ok}
use go_sunabar_payments.Platform.Sql.Keeps.{Keeps, keeps_rules}
use go_sunabar_payments.Transfer.Status.{Status, failed, can_transition, same_status}
use go_sunabar_payments.Transfer.Entity.{Transfer, transition, mark_failed}
use go_sunabar_payments.Transfer.Payload.{marshal_state_changed}
use go_sunabar_payments.Transfer.Repository.{update_rows, update}
use go_sunabar_payments.Transfer.Repository.Locking.{Keeps-update}
use go_sunabar_payments.Transfer.Gateway.{transfer_event, map_state_change_event}
use go_sunabar_payments.Transfer.Send.{state_changed}
use go_sunabar_payments.Transfer.Send.Effects.{IsNews, accept_tables}
use go_sunabar_payments.Transfer.Check.{deref_string, advanced, tell, apply_body}
use go_sunabar_payments.Outbox.Event.{OutboxRow}
use go_sunabar_payments.Outbox.Publisher.{new_row}
use go_sunabar_payments.Outbox.Publisher.Effect.{publish_ok, Keeps-publish}

-- A record of a transfer in another state, with its keys and its version.
pub record Moves (t : Transfer) (to : Status) (t' : Transfer) : Type 0 where
  pub status : t'.status ≡ to
  pub allowed : can_transition t.status to ≡ true
  pub same_id : t'.id ≡ t.id
  pub same_key : t'.api_idempotency_key ≡ t.api_idempotency_key
  pub same_params : t'.params ≡ t.params
  pub same_version : t'.version ≡ t.version

transition-Moves :
    (t t' : Transfer) (to : Status) (at : ℕ) → transition t to at ≡ ok t' → Moves t to t'
unfolding transition
transition-Moves t t' to at h = ground arith

mark_failed-Moves :
    (t t' : Transfer) (reason : String) (at : ℕ)
    → mark_failed t reason at ≡ ok t'
    → Moves t failed t'
unfolding mark_failed transition
mark_failed-Moves t t' reason at h = ground arith

advanced_by :
    (t t' : Transfer) (to : Status) (detail : String) (at : ℕ) (w : World) (b : Bool)
    → same_status to failed ≡ b
    → (advanced t to detail at w).0 ≡ ok t'
    → Moves t to t'
unfolding advanced lift on_error
advanced_by t t' to detail at w true e h =
    let is_failed : failed ≡ to = ground arith in
    subst (λ s. Moves t s t') is_failed
      (mark_failed-Moves t t' detail at
        (on_error_ok (wrapped "mark failed") (lift (mark_failed t detail at)) w (rw e at h)).0)
advanced_by t t' to detail at w false e h =
    transition-Moves t t' to at
      (on_error_ok (wrapped "transition") (lift (transition t to at)) w (rw e at h)).0

advanced_same :
    (t : Transfer) (to : Status) (detail : String) (at : ℕ) (w : World)
    → (advanced t to detail at w).1 ≡ w
unfolding advanced lift on_error
advanced_same t to detail at w = elim (Bool-cases (same_status to failed)) [
  | inl y ↦ rw y refl
  | inr n ↦ rw n refl
]

-- The events that go with a new state: one, or none for a state that no one is told of.
abbrev pub Told : String → Status → List OutboxRow → Type 0
Told id to events =
    ((map_state_change_event to ≡ "") × (events ≡ []))
    ⊎ ((row : OutboxRow) × (events ≡ row ∷ []) × IsNews row id (map_state_change_event to))

append_nothing : (xs : List OutboxRow) → xs ++ [] ≡ xs
append_nothing [] = refl
append_nothing (x ∷ xs) = ap (λ l. x ∷ l) (append_nothing xs)

tell_ok :
    (t t'' : Transfer) (to : Status) (apply_no : String) (at : ℕ) (w : World) (b : Bool)
    → str_eq (map_state_change_event to) "" ≡ b
    → (tell t t'' to apply_no at w).0 ≡ ok tt
    → (events : List OutboxRow) × Told t''.id to events
      × ((tell t t'' to apply_no at w).1.working
          ≡ record w.working { outbox_events = w.working.outbox_events ++ events })
unfolding tell pure new_id ◌>>=◌
tell_ok t t'' to apply_no at w true e h = (
  [],
  inl ((eq_iff (map_state_change_event to) "").0 e, refl),
  rw e (
      ap (λ l. record w.working { outbox_events = l })
        (sym (append_nothing w.working.outbox_events))),
)
tell_ok t t'' to apply_no at w false e h =
    let w' = record w { ids = w.ids + 1 } in
    let evt =
      transfer_event (w.outside.fresh_id w.ids) t''.id (map_state_change_event to)
        (marshal_state_changed
          (state_changed t'' t.status to apply_no (deref_string t''.last_error)))
        at in
    let row = new_row evt (w'.outside.clock w'.ticks) in
    (row ∷ [], inr (row, refl, (refl, refl, refl)), rw e (publish_ok evt w' (rw e at h)).1)

-- What the transaction has written when it returns no error.
pub apply_ok :
    (t : Transfer) (to : Status) (detail apply_no : String) (w : World)
    → (apply_body t to detail apply_no w).0 ≡ ok tt
    → (t' : Transfer) × (events : List OutboxRow) × Moves t to t'
      × ((update_rows t' w.working.transfers).0 ≢ 0)
      × Told t.id to events
      × ((apply_body t to detail apply_no w).1.working ≡ record w.working {
        transfers = (update_rows t' w.working.transfers).1;
        outbox_events = w.working.outbox_events ++ events;
      })
unfolding apply_body now on_error
apply_ok t to detail apply_no w h =
    let (at, e0, h0, q0) = bind_ok now _ w h in
    let w1 = (now w).1 in
    let (t1, e1, h1, q1) = bind_ok (advanced t to detail at) _ w1 h0 in
    let w2 = (advanced t to detail at w1).1 in
    let (t2, e2, h2, q2) = bind_ok (on_error (wrapped "update transfer") (update t1)) _ w2 h1 in
    let moves = advanced_by t t1 to detail at w1 (same_status to failed) refl e1 in
    let (counted, is_t2, updated) =
      accept_tables t1 t2 w w2 (ap (λ (x : World). x.working) (advanced_same t to detail at w1))
        (on_error_ok (wrapped "update transfer") (update t1) w2 e2).0 in
    let (events, told, written) =
      tell_ok t t2 to apply_no at (update t1 w2).1 (str_eq (map_state_change_event to) "") refl
        h2 in
    (
      t1,
      events,
      moves,
      counted,
      subst (λ i. Told i to events) (ap (λ (x : Transfer). x.id) is_t2 ∙ moves.same_id) told,
      ap (λ (x : Result (Unit {0}) × World). x.1.working) (q0 ∙ q1 ∙ q2)
          ∙ written
          ∙ ap (λ (db : Db). record db { outbox_events = db.outbox_events ++ events }) updated,
    )

Keeps-advanced :
    (t : Transfer) (to : Status) (detail : String) (at : ℕ) → Keeps (advanced t to detail at)
unfolding advanced
Keeps-advanced t to detail at = search keeps_rules

Keeps-tell :
    (t t'' : Transfer) (to : Status) (apply_no : String) (at : ℕ)
    → Keeps (tell t t'' to apply_no at)
unfolding tell
Keeps-tell t t'' to apply_no at = search (keeps_rules, Keeps-publish)

pub Keeps-apply_body :
    (t : Transfer) (to : Status) (detail apply_no : String)
    → Keeps (apply_body t to detail apply_no)
unfolding apply_body
Keeps-apply_body t to detail apply_no =
    search (keeps_rules, Keeps-update, Keeps-advanced, Keeps-tell) depth 8
