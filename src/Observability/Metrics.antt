-- ===== src/Observability/Metrics.antt =====
-- internal/platform/observability/metrics.go: the metrics, and how they are read from the tables.
pub mod Counts
use Prim.Native.String.{◌++◌ as str_append}
use go_sunabar_payments.Base.{
  ℕ, ◌+◌, ◌-◌, ◌*◌, ◌≡◌, refl, Bool, true, false, List, [], ◌∷◌, map, Option, none, some, String,
  str_eq, ◌==◌, if◌then◌else◌,
}
use go_sunabar_payments.Base.Int.{ℤ, pos, negsuc, ◌+ℤ◌, wrap64}
use go_sunabar_payments.Platform.Errors.{Error, Result, ok, err, decimal}
use go_sunabar_payments.Platform.World.{Db, World}
use go_sunabar_payments.Platform.Sql.{statement, query_db}
use go_sunabar_payments.Transfer.Status.{status_text}
use go_sunabar_payments.Transfer.Entity.{Transfer}
use go_sunabar_payments.Outbox.Event.{Delivery, pending, sent, failed, OutboxRow}
use go_sunabar_payments.Outbox.Due.{is_pending}
use go_sunabar_payments.Sunabar.Number.{codes, is_digit}

-- `Metrics`; the `sync.Map` is an association list.
pub record Metrics : Type 0 where
  pub outbox_pending_depth : ℤ
  pub outbox_failed_depth : ℤ
  pub transfer_status : List (String × ℤ)

-- `NewMetrics`.
abbrev pub new_metrics : Metrics
new_metrics = record {
  outbox_pending_depth = pos 0;
  outbox_failed_depth = pos 0;
  transfer_status = [];
}

abbrev pub put : String → ℤ → List (String × ℤ) → List (String × ℤ)
put key n [] = (key, n) ∷ []
put key n ((k, m) ∷ rest) = if str_eq k key then (k, n) ∷ rest else (k, m) ∷ put key n rest

-- `SetTransferStatusCount`.
unfoldable pub set_transfer_status_count : String → ℤ → Metrics → Metrics
set_transfer_status_count status n m = record m { transfer_status = put status n m.transfer_status }

abbrev prefixed : String × ℤ → String × ℤ
prefixed (status, n) = (str_append "transfer_status_" status, n)

-- `Snapshot`.
unfoldable pub snapshot : Metrics → List (String × ℤ)
snapshot m =
    ("outbox_pending_depth", m.outbox_pending_depth)
    ∷ ("outbox_failed_depth", m.outbox_failed_depth)
    ∷ map prefixed m.transfer_status

-- What the driver hands to a `Scanner`.
pub data DriverValue : Type 0 where
  nil : DriverValue
  int64 : ℤ → DriverValue
  bytes : List ℕ → DriverValue
  other_value : DriverValue

abbrev pub ten_times : ℤ → ℤ
ten_times (pos n) = pos (10 * n)
ten_times (negsuc n) = negsuc (10 * n + 9)

-- `n*10 + int64(b-'0')`, in int64.
unfoldable pub next_digit : ℤ → ℕ → ℤ
next_digit n b = wrap64 (wrap64 (ten_times n) +ℤ pos (b - b'0'))

-- The loop over the bytes: what is no digit is passed over.
unfoldable pub scan_bytes : ℤ → List ℕ → ℤ
scan_bytes n [] = n
scan_bytes n (b ∷ bs) = if is_digit b then scan_bytes (next_digit n b) bs else scan_bytes n bs

-- `pendingNullable.Scan`.
unfoldable pub scan_nullable : DriverValue → ℤ
unfolding scan_bytes
scan_nullable nil = pos 0
scan_nullable (int64 n) = n
scan_nullable (bytes bs) = scan_bytes (pos 0) bs
scan_nullable other_value = pos 0

abbrev pub is_failed : Delivery → Bool
is_failed failed = true
is_failed pending = false
is_failed sent = false

abbrev pub count_rows : (Delivery → Bool) → List OutboxRow → ℕ
count_rows here [] = 0
count_rows here (row ∷ rows) = let n = count_rows here rows in if here row.status then n + 1 else n

-- `SUM(CASE WHEN … THEN 1 ELSE 0 END)`: NULL for a table without rows, else a DECIMAL, which the
-- driver hands over as its text.
abbrev pub sum_value : (Delivery → Bool) → List OutboxRow → DriverValue
sum_value here [] = nil
sum_value here (row ∷ rows) = bytes (codes (decimal (count_rows here (row ∷ rows))))

abbrev pub add_one : String → List (String × ℕ) → List (String × ℕ)
add_one key [] = (key, 1) ∷ []
add_one key ((k, n) ∷ groups) =
    if str_eq k key then (k, n + 1) ∷ groups else (k, n) ∷ add_one key groups

-- `SELECT status, COUNT(*) FROM transfers GROUP BY status`.
unfoldable pub group_by_status : List Transfer → List (String × ℕ)
group_by_status [] = []
group_by_status (t ∷ ts) = add_one (status_text t.status) (group_by_status ts)

abbrev pub Outcome : Type 0
Outcome = (Result (Unit {0}) × Metrics) × World

abbrev pub after_scan : (World → Outcome) → Metrics → Result (Unit {0}) × World → Outcome
after_scan rest m (ok _, w) = rest w
after_scan rest m (err e, w) = ((err e, m), w)

-- The loop over the groups, up to `rows.Err()`: what is set before an error stays set.
unfoldable pub collect_groups : List (String × ℕ) → Metrics → World → Outcome
collect_groups [] m w = let (r, w') = statement w in ((r, m), w')
collect_groups ((status, n) ∷ groups) m w =
    let rest = collect_groups groups (set_transfer_status_count status (pos n) m) in
    after_scan rest m (statement w)

abbrev pub with_groups : Metrics → Result (List (String × ℕ)) × World → Outcome
with_groups m (ok groups, w) = collect_groups groups m w
with_groups m (err e, w) = ((err e, m), w)

abbrev pub with_sums : Metrics → Result (DriverValue × DriverValue) × World → Outcome
with_sums m (ok (p, f), w) =
    with_groups
      (record m { outbox_pending_depth = scan_nullable p; outbox_failed_depth = scan_nullable f })
      (query_db (λ db. group_by_status db.transfers) w)
with_sums m (err e, w) = ((err e, m), w)

-- `CollectFromDB`.
unfoldable pub collect_from_db : Metrics → World → Outcome
unfolding collect_groups scan_nullable
collect_from_db m w = with_sums m (
    query_db (λ db. (sum_value is_pending db.outbox_events, sum_value is_failed db.outbox_events))
      w)
