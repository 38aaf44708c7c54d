-- ===== src/Observability/Metrics/Counts.antt =====
-- What the metrics say after they are collected (internal/platform/observability/metrics.go).
use go_sunabar_payments.Base.{
  ℕ, zero, suc, ◌+◌, ◌-◌, ◌*◌, ◌^◌, ◌≤◌, ◌<◌, ◌≡◌, refl, ap, ◌∙◌, inl, inr, Bool, true, false, List,
  [], ◌∷◌, Option, none, some, String, str_eq, eq_iff, ◌==◌, arith, Bool-cases, if◌then◌else◌,
}
use go_sunabar_payments.Base.Int.{ℤ, pos, ◌+ℤ◌, wrap64}
use go_sunabar_payments.Platform.Errors.{Result, ok, err, decimal}
use go_sunabar_payments.Platform.World.{Db, World, continue, ◌>>=◌}
use go_sunabar_payments.Platform.Sql.{statement, query_db, read_committed}
use go_sunabar_payments.Platform.Sql.Keeps.{Frame-statement}
use go_sunabar_payments.Transfer.Status.{status_text}
use go_sunabar_payments.Transfer.Entity.{Transfer}
use go_sunabar_payments.Outbox.Event.{Delivery, OutboxRow}
use go_sunabar_payments.Outbox.Due.{is_pending}
use go_sunabar_payments.Sunabar.Number.{codes, is_digit, digits_from}
use go_sunabar_payments.Sunabar.Number.RoundTrip.{decimal-spells}
use go_sunabar_payments.Observability.Metrics.{
  Metrics, put, set_transfer_status_count, next_digit, scan_bytes, scan_nullable, is_failed,
  count_rows, sum_value, add_one, group_by_status, Outcome, after_scan, collect_groups, with_groups,
  with_sums, collect_from_db,
}

le-digits_from : (n m : ℕ) (bs : List ℕ) → digits_from n bs ≡ some m → n ≤ m
unfolding digits_from
le-digits_from n m [] h = ground arith
le-digits_from n m (b ∷ bs) h = ground (arith, le-digits_from (n * 10 + (b - b'0')) m bs)

next_digit-fits :
    (n b : ℕ) → n * 10 + (b - b'0') < 2 ^ 63 → next_digit (pos n) b ≡ pos (n * 10 + (b - b'0'))
unfolding next_digit wrap64 ◌+ℤ◌
next_digit-fits n b h = ground arith

scan_bytes-digits :
    (n m : ℕ) (bs : List ℕ) → digits_from n bs ≡ some m → m < 2 ^ 63 → scan_bytes (pos n) bs ≡ pos m
unfolding scan_bytes digits_from
scan_bytes-digits n m [] h k = ground arith
scan_bytes-digits n m (b ∷ bs) h k = elim (Bool-cases (is_digit b)) [
  | inl y ↦
      let q : digits_from (n * 10 + (b - b'0')) bs ≡ some m = rw y at h in
      rw (y, next_digit-fits n b (omega (arith, le-digits_from (n * 10 + (b - b'0')) m bs q, k)))
        (scan_bytes-digits (n * 10 + (b - b'0')) m bs q k)
  | inr z ↦ absurd (no_digit (rw z at h))
]
  where
    no_digit : none ≡ some m → ⊥
    no_digit q = cc

-- The depth that is read for a state of the outbox is the number of its rows in that state, also for an
-- empty table, as long as the rows are fewer than 2^63.
pub scan-sum_value :
    (here : Delivery → Bool) (rows : List OutboxRow)
    → count_rows here rows < 2 ^ 63
    → scan_nullable (sum_value here rows) ≡ pos (count_rows here rows)
unfolding scan_nullable
scan-sum_value here [] h = refl
scan-sum_value here (row ∷ rows) h =
    let n = count_rows here (row ∷ rows) in
    scan_bytes-digits 0 n (codes (decimal n)) (decimal-spells n (omega (arith, h))) h

-- What is stored under a key.
abbrev pub lookup {ℓ} : {A : Type ℓ} → String → List (String × A) → Option A
lookup key [] = none
lookup key ((k, n) ∷ rest) = if str_eq k key then some n else lookup key rest

-- How many transfers have the state of this text.
abbrev pub count_status : String → List Transfer → ℕ
count_status key [] = 0
count_status key (t ∷ ts) =
    let n = count_status key ts in if str_eq (status_text t.status) key then n + 1 else n

lookup-put :
    (key k : String) (n : ℤ) (m : List (String × ℤ))
    → lookup key (put k n m) ≡ (if str_eq k key then some n else lookup key m)
lookup-put key k n [] = refl
lookup-put key k n ((j, v) ∷ m) =
    ground (arith, eq_iff j k, eq_iff j key, eq_iff k key, lookup-put key k n m)

abbrev number_of : Option ℕ → ℕ
number_of none = 0
number_of (some n) = n

lookup-add_one :
    (key k : String) (g : List (String × ℕ))
    → lookup key (add_one k g)
      ≡ (if str_eq k key then some (number_of (lookup key g) + 1) else lookup key g)
lookup-add_one key k [] = ground arith
lookup-add_one key k ((j, v) ∷ g) =
    ground (arith, eq_iff j k, eq_iff j key, eq_iff k key, lookup-add_one key k g)

-- What the groups say of a state: nothing where no transfer has it.
abbrev pub grouped : ℕ → Option ℕ
grouped n = if n == 0 then none else some n

one_more :
    (b : Bool) (n : ℕ)
    → (if b then some (number_of (grouped n) + 1) else grouped n) ≡ grouped (if b then n + 1 else n)
one_more true zero = refl
one_more true (suc n) = ground arith
one_more false n = refl

lookup-group_by_status :
    (key : String) (ts : List Transfer)
    → lookup key (group_by_status ts) ≡ grouped (count_status key ts)
unfolding group_by_status
lookup-group_by_status key [] = refl
lookup-group_by_status key (t ∷ ts) =
    rw
      (
        lookup-add_one key (status_text t.status) (group_by_status ts),
        lookup-group_by_status key ts,
      )
      (one_more (str_eq (status_text t.status) key) (count_status key ts))

-- Each state stands in one group.
abbrev Distinct : List (String × ℕ) → Type 0
Distinct [] = Unit
Distinct ((k, n) ∷ g) = (lookup k g ≡ none) × Distinct g

add_one-Distinct : (k : String) (g : List (String × ℕ)) → Distinct g → Distinct (add_one k g)
add_one-Distinct k [] d = (refl, tt)
add_one-Distinct k ((j, v) ∷ g) d =
    ground (arith, add_one-Distinct k g d.1, lookup-add_one j k g, eq_iff j k, eq_iff k j)

group_by_status-Distinct : (ts : List Transfer) → Distinct (group_by_status ts)
unfolding group_by_status
group_by_status-Distinct [] = tt
group_by_status-Distinct (t ∷ ts) =
    add_one-Distinct (status_text t.status) (group_by_status ts) (group_by_status-Distinct ts)

abbrev set_all : List (String × ℕ) → List (String × ℤ) → List (String × ℤ)
set_all [] m = m
set_all ((k, n) ∷ g) m = set_all g (put k (pos n) m)

-- The count of a group, or what was there before.
abbrev pub or_old : Option ℕ → Option ℤ → Option ℤ
or_old none old = old
or_old (some n) old = some (pos n)

lookup-set_all :
    (key : String) (g : List (String × ℕ)) (m : List (String × ℤ))
    → Distinct g
    → lookup key (set_all g m) ≡ or_old (lookup key g) (lookup key m)
lookup-set_all key [] m d = refl
lookup-set_all key ((k, n) ∷ g) m d =
    lookup-set_all key g (put k (pos n) m) d.1
    ∙ ap (or_old (lookup key g)) (lookup-put key k (pos n) m)
    ∙ (elim (Bool-cases (str_eq k key)) [
      | inl y ↦ rw y (ap (λ o. or_old o (some (pos n))) (absent y))
      | inr z ↦ rw z refl
    ])
  where
    absent : str_eq k key ≡ true → lookup key g ≡ none
    absent y = ground (arith, eq_iff k key, d.0)

after_scan_ok :
    (rest : World → Outcome) (m m' : Metrics) (s : Result (Unit {0}) × World)
    → ((v : World) → (rest v).0.0 ≡ ok tt → (rest v).0.1 ≡ m')
    → (after_scan rest m s).0.0 ≡ ok tt
    → (after_scan rest m s).0.1 ≡ m'
after_scan_ok rest m m' (ok _, v) k h = k v h
after_scan_ok rest m m' (err e, v) k h = cc

collected_groups :
    (g : List (String × ℕ)) (m : Metrics) (w : World)
    → (collect_groups g m w).0.0 ≡ ok tt
    → (collect_groups g m w).0.1 ≡ record m { transfer_status = set_all g m.transfer_status }
unfolding collect_groups set_transfer_status_count
collected_groups [] m w h = refl
collected_groups ((k, n) ∷ g) m w h =
    let m' : Metrics = record m { transfer_status = put k (pos n) m.transfer_status } in
    after_scan_ok (collect_groups g m') m
      (record m' { transfer_status = set_all g m'.transfer_status }) (statement w)
      (λ v q. collected_groups g m' v q) h

-- The metrics that tables give, from those that were there before: the depths of the outbox, and for
-- each state the number of its transfers where there are any. Where there are none, the number is still
-- that of the last time that there were some.
abbrev pub Collected : Db → Metrics → Metrics → Type 0
Collected db m m' =
    (m'.outbox_pending_depth ≡ pos (count_rows is_pending db.outbox_events))
    × (m'.outbox_failed_depth ≡ pos (count_rows is_failed db.outbox_events))
    × ((key : String)
        → lookup key m'.transfer_status
          ≡ or_old (grouped (count_status key db.transfers)) (lookup key m.transfer_status))

grouped_metrics :
    (m : Metrics) (w : World) (db : Db)
    → (with_groups m (query_db (λ (x : Db). group_by_status x.transfers) w)).0.0 ≡ ok tt
    → w.committed ≡ db
    → (with_groups m (query_db (λ (x : Db). group_by_status x.transfers) w)).0.1
      ≡ record m { transfer_status = set_all (group_by_status db.transfers) m.transfer_status }
unfolding query_db read_committed ◌>>=◌
grouped_metrics m w db h q = go (statement w) ((Frame-statement w).committed ∙ q) h
  where
    read : Result (Unit {0}) × World → Outcome
    read s =
        with_groups m (continue s.0 (λ u v. (ok (group_by_status v.committed.transfers), v)) s.1)

    go :
        (s : Result (Unit {0}) × World)
        → s.1.committed ≡ db
        → (read s).0.0 ≡ ok tt
        → (read s).0.1
          ≡ record m { transfer_status = set_all (group_by_status db.transfers) m.transfer_status }
    go (ok _, v) e h =
        collected_groups (group_by_status v.committed.transfers) m v h
        ∙ ap
            (λ (x : Db). record m {
              transfer_status = set_all (group_by_status x.transfers) m.transfer_status;
            })
            e
    go (err e', v) e h = cc

-- When the metrics are collected without an error, from an outbox of fewer than 2^63 PENDING and FAILED
-- rows each, they are those of the committed tables, but for the states that no transfer has any more,
-- which keep their former numbers.
pub collect_ok :
    (m : Metrics) (w : World)
    → count_rows is_pending w.committed.outbox_events < 2 ^ 63
    → count_rows is_failed w.committed.outbox_events < 2 ^ 63
    → (collect_from_db m w).0.0 ≡ ok tt
    → Collected w.committed m (collect_from_db m w).0.1
unfolding collect_from_db query_db read_committed ◌>>=◌
collect_ok m w few_p few_f h = go (statement w) (Frame-statement w).committed h
  where
    read : Result (Unit {0}) × World → Outcome
    read s = with_sums m (
        continue s.0
          (λ u v. (
            ok (
              sum_value is_pending v.committed.outbox_events,
              sum_value is_failed v.committed.outbox_events,
            ),
            v,
          ))
          s.1)

    go :
        (s : Result (Unit {0}) × World)
        → s.1.committed ≡ w.committed
        → (read s).0.0 ≡ ok tt
        → Collected w.committed m (read s).0.1
    go (ok _, v) e h =
        let m1 : Metrics = record m {
          outbox_pending_depth = scan_nullable (sum_value is_pending v.committed.outbox_events);
          outbox_failed_depth = scan_nullable (sum_value is_failed v.committed.outbox_events);
        } in
        let groups = group_by_status w.committed.transfers in
        let q = grouped_metrics m1 v w.committed h e in
        (
          ap (λ (x : Metrics). x.outbox_pending_depth) q
              ∙ ap (λ (db : Db). scan_nullable (sum_value is_pending db.outbox_events)) e
              ∙ scan-sum_value is_pending w.committed.outbox_events few_p,
          ap (λ (x : Metrics). x.outbox_failed_depth) q
              ∙ ap (λ (db : Db). scan_nullable (sum_value is_failed db.outbox_events)) e
              ∙ scan-sum_value is_failed w.committed.outbox_events few_f,
          λ key.
              ap (λ (x : Metrics). lookup key x.transfer_status) q
              ∙ lookup-set_all key groups m.transfer_status
                  (group_by_status-Distinct w.committed.transfers)
              ∙ ap (λ o. or_old o (lookup key m.transfer_status))
                  (lookup-group_by_status key w.committed.transfers),
        )
    go (err e', v) e h = cc
