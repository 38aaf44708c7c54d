-- ===== src/Outbox/Due/Ahead.antt =====
-- The rows that are due first fill the batch of `ProcessBatch` (internal/platform/outbox/relay.go).
use go_sunabar_payments.Base.{
  ℕ, zero, suc, ◌≤◌, ◌<◌, ◌≡◌, refl, ap, ◌∙◌, inl, inr, Bool, true, false, String, not, ◌&&◌, List,
  [], ◌∷◌, ◌++◌, length, take, All, leb, arith, Bool-cases, if◌then◌else◌,
}
use go_sunabar_payments.Outbox.Event.{OutboxRow}
use go_sunabar_payments.Outbox.Due.{
  is_due, due_rows, free_rows, insert_by_time, sort_by_time, due_batch,
}
use go_sunabar_payments.Outbox.Due.Selection.{sort-All}

-- The rows that are due at an instant, but were not at an earlier one.
abbrev newly_due : ℕ → ℕ → List OutboxRow → List OutboxRow
newly_due before at [] = []
newly_due before at (row ∷ rows) =
    if is_due at row && not (is_due before row)
    then row ∷ newly_due before at rows
    else newly_due before at rows

abbrev Early : ℕ → List OutboxRow → Type 0
Early m = All (λ (r : OutboxRow). r.next_attempt_at ≤ m)

abbrev Late : ℕ → List OutboxRow → Type 0
Late m = All (λ (r : OutboxRow). m < r.next_attempt_at)

due-Early : (m : ℕ) (rows : List OutboxRow) → Early m (due_rows m rows)
due-Early m [] = tt
due-Early m (row ∷ rows) = elim (Bool-cases (is_due m row)) [
  | inl y ↦ rw y (ground arith, due-Early m rows)
  | inr n ↦ rw n (due-Early m rows)
]

newly-Late : (m at : ℕ) (rows : List OutboxRow) → Late m (newly_due m at rows)
newly-Late m at [] = tt
newly-Late m at (row ∷ rows) = elim (Bool-cases (is_due at row && not (is_due m row))) [
  | inl y ↦ rw y (ground arith, newly-Late m at rows)
  | inr n ↦ rw n (newly-Late m at rows)
]

insert-early :
    (m : ℕ) (row : OutboxRow) (xs ys : List OutboxRow)
    → row.next_attempt_at ≤ m
    → Late m ys
    → insert_by_time row (xs ++ ys) ≡ insert_by_time row xs ++ ys
unfolding insert_by_time
insert-early m row [] [] h late = refl
insert-early m row [] (y ∷ ys) h (l, late) =
    let e : leb row.next_attempt_at y.next_attempt_at ≡ true = ground arith in rw e refl
insert-early m row (x ∷ xs) ys h late =
    elim (Bool-cases (leb row.next_attempt_at x.next_attempt_at)) [
      | inl y ↦ rw y refl
      | inr n ↦ rw n (ap (λ (l : List OutboxRow). x ∷ l) (insert-early m row xs ys h late))
    ]

insert-late :
    (m : ℕ) (row : OutboxRow) (xs ys : List OutboxRow)
    → m < row.next_attempt_at
    → Early m xs
    → insert_by_time row (xs ++ ys) ≡ xs ++ insert_by_time row ys
unfolding insert_by_time
insert-late m row [] ys h early = refl
insert-late m row (x ∷ xs) ys h (e, early) =
    let q : leb row.next_attempt_at x.next_attempt_at ≡ false = ground arith in
    rw q (ap (λ (l : List OutboxRow). x ∷ l) (insert-late m row xs ys h early))

-- The rows due at an instant stand before those that become due later.
sorted-apart :
    (m at : ℕ) (rows : List OutboxRow)
    → m ≤ at
    → sort_by_time (due_rows at rows)
      ≡ sort_by_time (due_rows m rows) ++ sort_by_time (newly_due m at rows)
unfolding sort_by_time
sorted-apart m at [] h = refl
sorted-apart m at (row ∷ rows) h = elim (Bool-cases (is_due m row)) [
  | inl y ↦
      let z : is_due at row ≡ true = ground arith in
      rw (y, z, sorted-apart m at rows h)
        (insert-early m row (sort_by_time (due_rows m rows)) (sort_by_time (newly_due m at rows))
          (ground arith) (sort-All _ (newly_due m at rows) (newly-Late m at rows)))
  | inr n ↦ elim (Bool-cases (is_due at row)) [
    | inl z ↦
        rw (n, z, sorted-apart m at rows h)
          (insert-late m row (sort_by_time (due_rows m rows)) (sort_by_time (newly_due m at rows))
            (ground arith) (sort-All _ (due_rows m rows) (due-Early m rows)))
    | inr z ↦ rw (n, z) (sorted-apart m at rows h)
  ]
]

length-insert :
    (row : OutboxRow) (xs : List OutboxRow) → length (insert_by_time row xs) ≡ suc (length xs)
unfolding insert_by_time
length-insert row [] = refl
length-insert row (x ∷ xs) = elim (Bool-cases (leb row.next_attempt_at x.next_attempt_at)) [
  | inl y ↦ rw y refl
  | inr n ↦ rw n (ap suc (length-insert row xs))
]

length-sort : (rows : List OutboxRow) → length (sort_by_time rows) ≡ length rows
unfolding sort_by_time
length-sort [] = refl
length-sort (row ∷ rows) = length-insert row (sort_by_time rows) ∙ ap suc (length-sort rows)

take-All : (P : OutboxRow → Type 0) (n : ℕ) (xs : List OutboxRow) → All P xs → All P (take n xs)
take-All P zero xs ps = tt
take-All P (suc n) [] ps = tt
take-All P (suc n) (x ∷ xs) (p, ps) = (p, take-All P n xs ps)

take-first :
    (P : OutboxRow → Type 0) (n : ℕ) (xs ys : List OutboxRow)
    → n ≤ length xs
    → All P xs
    → All P (take n (xs ++ ys))
take-first P zero xs ys h ps = tt
take-first P (suc n) [] ys h ps = absurd (omega (arith, h))
take-first P (suc n) (x ∷ xs) ys h (p, ps) = (p, take-first P n xs ys (omega (arith, h)) ps)

fewer-due :
    (P : OutboxRow → Type 0) (at m : ℕ) (rows : List OutboxRow)
    → at ≤ m
    → All P (due_rows m rows)
    → All P (due_rows at rows)
fewer-due P at m [] h ps = tt
fewer-due P at m (row ∷ rows) h ps = elim (Bool-cases (is_due at row)) [
  | inl y ↦
      let z : is_due m row ≡ true = ground arith in
      let qs : P row × All P (due_rows m rows) = rw z at ps in
      rw y (qs.0, fewer-due P at m rows h qs.1)
  | inr n ↦ rw n (fewer-due P at m rows h (rest (is_due m row) ps))
]
  where
    rest :
        (b : Bool)
        → All P (if b then row ∷ due_rows m rows else due_rows m rows)
        → All P (due_rows m rows)
    rest true ps = ps.1
    rest false ps = ps

all_free :
    (locked : String → Bool) (rows : List OutboxRow)
    → ((id : String) → locked id ≡ false)
    → free_rows locked rows ≡ rows
all_free locked [] h = refl
all_free locked (row ∷ rows) h = rw (h row.id, all_free locked rows h) refl

-- What holds of all rows that are due at one instant holds of every batch at any instant, earlier or
-- later, when these rows are enough to fill a batch and no other worker has locked a row: rows that
-- become due later do not get in.
pub batch_held :
    (P : OutboxRow → Type 0) (locked : String → Bool) (m at size : ℕ) (rows : List OutboxRow)
    → ((id : String) → locked id ≡ false)
    → All P (due_rows m rows)
    → size ≤ length (due_rows m rows)
    → All P (due_batch locked at size rows)
unfolding due_batch
batch_held P locked m at size rows free ps enough =
    rw (all_free locked (due_rows at rows) free) (elim (Bool-cases (leb m at)) [
      | inl y ↦ rw (sorted-apart m at rows (ground arith)) (
          take-first P size (sort_by_time (due_rows m rows)) (sort_by_time (newly_due m at rows))
            (omega (arith, length-sort (due_rows m rows), enough))
            (sort-All P (due_rows m rows) ps))
      | inr n ↦
          take-All P size (sort_by_time (due_rows at rows))
            (sort-All P (due_rows at rows) (fewer-due P at m rows (ground arith) ps))
    ])
