-- ===== src/Transfer/Entity/History.antt =====
-- What a sequence of calls of `Transition` does to a transfer
-- (internal/modules/transfer/domain/transfer.go), whichever states the calls ask for.
use go_sunabar_payments.Base.{
  ℕ, ◌+◌, ◌≤◌, ◌≡◌, refl, ◌∙◌, ◌⊎◌, inl, inr, Bool, true, ◌||◌, List, [], ◌∷◌, String, arith,
  if◌then◌else◌,
}
use go_sunabar_payments.Platform.Errors.{Result, ok, err}
use go_sunabar_payments.Transfer.Status.{
  Status, pending, requested, settled, failed, same_status, can_transition, is_terminal,
}
use go_sunabar_payments.Transfer.Status.Graph.{rank, rank-le}
use go_sunabar_payments.Transfer.Entity.{Transfer, Params, new_transfer, transition}

-- The transfer after a call: an error leaves it as it was.
abbrev pub kept : Transfer → Result Transfer → Transfer
kept t (ok t') = t'
kept t (err _) = t

-- The transfer after the calls, each with the state that it asks for and its time.
unfoldable pub history : Transfer → List (Status × ℕ) → Transfer
history t [] = t
history t ((to, now) ∷ calls) = history (kept t (transition t to now)) calls

-- How often the state changed on the way.
unfoldable pub changes : Transfer → List (Status × ℕ) → ℕ
changes t [] = 0
changes t ((to, now) ∷ calls) =
    (if same_status t.status (kept t (transition t to now)).status then 0 else 1)
    + changes (kept t (transition t to now)) calls

-- The transfer is in the state at some point: before the calls, or after one of them.
abbrev pub passes : Transfer → List (Status × ℕ) → Status → Bool
passes t [] s = same_status t.status s
passes t ((to, now) ∷ calls) s =
    same_status t.status s || passes (kept t (transition t to now)) calls s

same_status_self : (s : Status) → same_status s s ≡ true
same_status_self s = ground arith

rank-can_transition :
    (a b : Status)
    → can_transition a b ≡ true
    → rank a + (if same_status a b then 0 else 1) ≤ rank b
unfolding can_transition
rank-can_transition a b h = ground arith

rank-transition :
    (t : Transfer) (to : Status) (now : ℕ)
    → let t' = kept t (transition t to now) in
      rank t.status + (if same_status t.status t'.status then 0 else 1) ≤ rank t'.status
unfolding transition
rank-transition t to now = ground (arith, rank-can_transition t.status to)

rank-history :
    (t : Transfer) (calls : List (Status × ℕ))
    → rank t.status + changes t calls ≤ rank (history t calls).status
unfolding history changes
rank-history t [] = omega arith
rank-history t ((to, now) ∷ calls) =
    omega (arith, rank-transition t to now, rank-history (kept t (transition t to now)) calls)

-- Whatever calls are made, the state of a transfer changes four times at most.
pub changes_bounded : (t : Transfer) (calls : List (Status × ℕ)) → changes t calls ≤ 4
changes_bounded t calls = omega (arith, rank-history t calls, rank-le (history t calls).status)

transition_terminal :
    (t : Transfer) (to : Status) (now : ℕ)
    → is_terminal t.status ≡ true
    → (kept t (transition t to now)).status ≡ t.status
unfolding transition can_transition is_terminal
transition_terminal t to now h = ground arith

-- A transfer that is SETTLED or FAILED stays so under any calls.
pub terminal_absorbs :
    (t : Transfer) (calls : List (Status × ℕ))
    → is_terminal t.status ≡ true
    → (history t calls).status ≡ t.status
unfolding history
terminal_absorbs t [] h = refl
terminal_absorbs t ((to, now) ∷ calls) h =
    let same = transition_terminal t to now h in
    terminal_absorbs (kept t (transition t to now)) calls (rw same h) ∙ same

transition_pending :
    (t : Transfer) (to : Status) (now : ℕ)
    → (t.status ≡ pending) ⊎ (t.status ≡ failed)
    → let t' = kept t (transition t to now) in
      (t'.status ≡ requested) ⊎ ((t'.status ≡ pending) ⊎ (t'.status ≡ failed))
unfolding transition can_transition
transition_pending t to now h = ground arith

passes_now :
    (t : Transfer) (calls : List (Status × ℕ)) (s : Status) → t.status ≡ s → passes t calls s ≡ true
passes_now t [] s h = rw h (same_status_self s)
passes_now t ((to, now) ∷ calls) s h = rw (h, same_status_self s) refl

or_true : (b : Bool) → b || true ≡ true
or_true b = ground arith

settled_from :
    (t : Transfer) (calls : List (Status × ℕ))
    → (t.status ≡ pending) ⊎ (t.status ≡ failed)
    → (history t calls).status ≡ settled
    → passes t calls requested ≡ true
unfolding history
settled_from t [] h e = ground arith
settled_from t ((to, now) ∷ calls) h e = elim (transition_pending t to now h) [
  | inl q ↦ rw (passes_now (kept t (transition t to now)) calls requested q) (or_true _)
  | inr q ↦ rw (settled_from (kept t (transition t to now)) calls q e) (or_true _)
]

-- A new transfer that any calls have settled has been REQUESTED in between: one that was never handed
-- to the bank cannot be recorded as paid.
pub settled_needs_requested :
    (id app_request_id key : String) (params : Params) (now : ℕ) (calls : List (Status × ℕ))
    → (history (new_transfer id app_request_id key params now) calls).status ≡ settled
    → passes (new_transfer id app_request_id key params now) calls requested ≡ true
unfolding new_transfer
settled_needs_requested id app_request_id key params now calls e =
    settled_from (new_transfer id app_request_id key params now) calls (inl refl) e
