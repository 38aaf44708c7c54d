-- ===== src/Outbox/Due/Selection.antt =====
-- Which rows `ProcessBatch` (internal/platform/outbox/relay.go) takes.
use mathlib.Core.List.{Perm}
use mathlib.Core.List.Perm
use go_sunabar_payments.Base.{
  ℕ, zero, suc, ◌≤◌, ◌≡◌, refl, ap, inl, inr, Bool, false, String, List, [], ◌∷◌, ◌++◌, take, drop,
  All, leb, Bool-cases,
}
use go_sunabar_payments.Outbox.Event.{pending, OutboxRow}
use go_sunabar_payments.Outbox.Due.{insert_by_time, sort_by_time}

-- The rows stand in the order of the instants at which they are due.
abbrev pub InOrder : List OutboxRow → Type 0
InOrder [] = Unit
InOrder (row ∷ rows) =
    All (λ (r : OutboxRow). row.next_attempt_at ≤ r.next_attempt_at) rows × InOrder rows

pub insert-All :
    (P : OutboxRow → Type 0) (row : OutboxRow) (rows : List OutboxRow)
    → P row
    → All P rows
    → All P (insert_by_time row rows)
unfolding insert_by_time
insert-All P row [] p ps = (p, tt)
insert-All P row (r ∷ rows) p ps = elim (Bool-cases (leb row.next_attempt_at r.next_attempt_at)) [
  | inl y ↦ rw y (p, ps)
  | inr n ↦ rw n (ps.0, insert-All P row rows p ps.1)
]

pub take-drop : (n : ℕ) (xs : List OutboxRow) → take n xs ++ drop n xs ≡ xs
take-drop zero xs = refl
take-drop (suc n) [] = refl
take-drop (suc n) (x ∷ xs) = ap (λ l. x ∷ l) (take-drop n xs)

-- PENDING, due at the instant, and locked by no other worker.
abbrev pub IsFree : (String → Bool) → ℕ → OutboxRow → Type 0
IsFree locked at row = (row.status ≡ pending) × (row.next_attempt_at ≤ at) × (locked row.id ≡ false)

pub sort-All :
    (P : OutboxRow → Type 0) (rows : List OutboxRow) → All P rows → All P (sort_by_time rows)
unfolding sort_by_time
sort-All P [] ps = tt
sort-All P (row ∷ rows) (p, ps) = insert-All P row (sort_by_time rows) p (sort-All P rows ps)
