-- ===== src/Transfer/Status/Graph.antt =====
-- The transition graph of internal/modules/transfer/domain/status.go as a relation.
use go_sunabar_payments.Base.{ℕ, ◌≤◌, ◌≡◌, refl, ◌↔◌, ◌⊎◌, inl, inr, true, arith}
use go_sunabar_payments.Transfer.Status.{
  Status, pending, requested, awaiting_approval, approved, settled, failed, can_transition,
}

-- The arrows of the diagram.
infix 40 ◌⟶◌
pub data ◌⟶◌ : Status → Status → Type 0 where
  send : pending ⟶ requested
  reject_pending : pending ⟶ failed
  wait : requested ⟶ awaiting_approval
  approve_requested : requested ⟶ approved
  settle_requested : requested ⟶ settled
  reject_requested : requested ⟶ failed
  approve : awaiting_approval ⟶ approved
  settle_awaiting : awaiting_approval ⟶ settled
  reject_awaiting : awaiting_approval ⟶ failed
  settle : approved ⟶ settled
  reject_approved : approved ⟶ failed

ruleset arrows = (
  send, reject_pending, wait, approve_requested, settle_requested, reject_requested, approve,
  settle_awaiting, reject_awaiting, settle, reject_approved,
)

can_transition-cases : (a b : Status) → can_transition a b ≡ true → (a ≡ b) ⊎ (a ⟶ b)
unfolding can_transition
can_transition-cases a b h = grind (arith, arrows)

⟶-can_transition : (a b : Status) → (a ≡ b) ⊎ (a ⟶ b) → can_transition a b ≡ true
unfolding can_transition
⟶-can_transition a b (inl e) = ground arith
⟶-can_transition _ _ (inr send) = refl
⟶-can_transition _ _ (inr reject_pending) = refl
⟶-can_transition _ _ (inr wait) = refl
⟶-can_transition _ _ (inr approve_requested) = refl
⟶-can_transition _ _ (inr settle_requested) = refl
⟶-can_transition _ _ (inr reject_requested) = refl
⟶-can_transition _ _ (inr approve) = refl
⟶-can_transition _ _ (inr settle_awaiting) = refl
⟶-can_transition _ _ (inr reject_awaiting) = refl
⟶-can_transition _ _ (inr settle) = refl
⟶-can_transition _ _ (inr reject_approved) = refl

-- `canTransition` accepts exactly the observation of the same state and the arrows of the diagram.
pub can_transition_iff : (a b : Status) → (can_transition a b ≡ true) ↔ ((a ≡ b) ⊎ (a ⟶ b))
can_transition_iff a b = (can_transition-cases a b, ⟶-can_transition a b)

-- How far a state is along the diagram; both terminal states are at the end.
abbrev pub rank : Status → ℕ
rank pending = 0
rank requested = 1
rank awaiting_approval = 2
rank approved = 3
rank settled = 4
rank failed = 4

pub rank-le : (s : Status) → rank s ≤ 4
rank-le pending = omega arith
rank-le _ = omega arith
