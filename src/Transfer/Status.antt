-- ===== src/Transfer/Status.antt =====
-- internal/modules/transfer/domain/status.go: the states of a transfer and the transition graph.
-- The Go type is a string; its six constants are the constructors, since no other value is made.
pub mod Graph
use go_sunabar_payments.Base.{
  ℕ, Bool, true, false, ◌||◌, List, [], ◌∷◌, String, ◌==◌, if◌then◌else◌,
}

pub data Status : Type 0 where
  pending requested awaiting_approval approved settled failed : Status

abbrev pub status_code : Status → ℕ
status_code pending = 0
status_code requested = 1
status_code awaiting_approval = 2
status_code approved = 3
status_code settled = 4
status_code failed = 5

-- `==` of two states.
abbrev pub same_status : Status → Status → Bool
same_status a b = status_code a == status_code b

-- `string(status)`.
abbrev pub status_text : Status → String
status_text pending = "PENDING"
status_text requested = "REQUESTED"
status_text awaiting_approval = "AWAITING_APPROVAL"
status_text approved = "APPROVED"
status_text settled = "SETTLED"
status_text failed = "FAILED"

-- The map `validTransitions`.
abbrev pub valid_transitions : Status → List Status
valid_transitions pending = requested ∷ failed ∷ []
valid_transitions requested = awaiting_approval ∷ approved ∷ settled ∷ failed ∷ []
valid_transitions awaiting_approval = approved ∷ settled ∷ failed ∷ []
valid_transitions approved = settled ∷ failed ∷ []
valid_transitions settled = []
valid_transitions failed = []

-- `Status.IsTerminal`.
unfoldable pub is_terminal : Status → Bool
is_terminal s = same_status s settled || same_status s failed

-- The loop of `canTransition` over the allowed states.
abbrev pub contains : List Status → Status → Bool
contains [] to = false
contains (s ∷ allowed) to = same_status s to || contains allowed to

-- Observing the state a transfer is in already is allowed.
unfoldable pub can_transition : Status → Status → Bool
can_transition from to = if same_status from to then true else contains (valid_transitions from) to
