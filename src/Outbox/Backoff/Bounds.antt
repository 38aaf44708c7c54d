-- ===== src/Outbox/Backoff/Bounds.antt =====
-- The delays of `backoffDuration` (internal/platform/outbox/relay.go).
use go_sunabar_payments.Base.{ℕ, zero, suc, ◌+◌, ◌-◌, ◌*◌, ◌^◌, ◌≤◌, ◌≡◌, arith, leb, if◌then◌else◌}
use mathlib.Core.Path.{subst}
use go_sunabar_payments.Base.Int.{ℤ, pos, negsuc, ◌≤ℤ◌, ltb_ℤ, wrap64_id}
use go_sunabar_payments.Transfer.Breaker.{second}
use go_sunabar_payments.Outbox.Backoff.{ten_minutes, shifted_seconds, backoff_duration}

pow_suc : (n : ℕ) → 2 ^ (suc n) ≡ 2 ^ n + 2 ^ n
pow_suc n = omega arith

pow_pos : (n : ℕ) → 1 ≤ 2 ^ n
pow_pos zero = omega arith
pow_pos (suc n) = omega (arith, pow_suc n, pow_pos n)

le_self : (k : ℕ) → k ≤ k
le_self k = omega arith

pow_mono : (m n : ℕ) → 2 ^ m ≤ 2 ^ (n + m)
pow_mono m zero = subst (λ k. 2 ^ m ≤ 2 ^ k) same (le_self (2 ^ m))
  where
    same : m ≡ 0 + m
    same = omega arith
pow_mono m (suc n) =
    subst (λ k. 2 ^ m ≤ 2 ^ k) same (omega (arith, pow_mono m n, pow_suc (n + m), pow_pos (n + m)))
  where
    same : suc (n + m) ≡ suc n + m
    same = omega arith

pow_small : (n : ℕ) → n ≤ 9 → 2 ^ n ≤ 512
pow_small n h = subst (λ k. 2 ^ n ≤ 2 ^ k) split (pow_mono n (9 - n))
  where
    split : 9 - n + n ≡ 9
    split = omega arith

pow_large : (n : ℕ) → 10 ≤ n → 1024 ≤ 2 ^ n
pow_large n h = subst (λ k. 2 ^ 10 ≤ 2 ^ k) split (pow_mono 10 (n - 10))
  where
    split : n - 10 + 10 ≡ n
    split = omega arith

double_mono : (m n : ℕ) → m ≤ n → 2 ^ m ≤ 2 ^ n
double_mono m n h = subst (λ k. 2 ^ m ≤ 2 ^ k) split (pow_mono m (n - m))
  where
    split : n - m + m ≡ n
    split = omega arith

shifted_small : (n : ℕ) → n ≤ 30 → shifted_seconds n ≡ pos (2 ^ n * second)
unfolding shifted_seconds
shifted_small n h =
    let few : 2 ^ n ≤ 2 ^ 30 = double_mono n 30 h in
    rw (wrap64_id (pos (2 ^ n)) (omega (arith, few), omega arith))
      (wrap64_id (pos (2 ^ n * second)) (omega (arith, few), omega arith))

capped :
    (n : ℕ)
    → n ≤ 30
    → (if ltb_ℤ (pos ten_minutes) (shifted_seconds n) then pos ten_minutes else shifted_seconds n)
      ≡ pos (if leb n 9 then 2 ^ n * second else ten_minutes)
capped n h = rw (shifted_small n h) (ground (arith, pow_small n, pow_large n))

-- The delay doubles with each attempt from one second on, up to 512 seconds at the ninth, and is ten
-- minutes from the tenth on, however large the attempt is: neither the shift nor the product overflows.
pub backoff_exact :
    (n : ℕ) → backoff_duration (pos n) ≡ pos (if leb n 9 then 2 ^ n * second else ten_minutes)
unfolding backoff_duration
backoff_exact n = ground (arith, capped n, capped 30)

backoff_negative : (n : ℕ) → backoff_duration (negsuc n) ≡ pos second
unfolding backoff_duration
backoff_negative n = ground (arith, capped 0)

-- Whatever the attempt is, the delay is between one second and ten minutes.
pub backoff_bounds :
    (a : ℤ) → (pos second ≤ℤ backoff_duration a) × (backoff_duration a ≤ℤ pos ten_minutes)
backoff_bounds (pos n) = rw (backoff_exact n) (ground (arith, pow_pos n, pow_small n))
backoff_bounds (negsuc n) = rw (backoff_negative n) (ground arith)

-- A later attempt never waits less.
pub backoff_monotone : (a b : ℤ) → a ≤ℤ b → backoff_duration a ≤ℤ backoff_duration b
backoff_monotone (pos m) (pos n) h =
    rw (backoff_exact m, backoff_exact n)
      (ground (arith, double_mono m n, pow_small m, pow_small n))
backoff_monotone (negsuc m) b h = rw (backoff_negative m) (backoff_bounds b).0
backoff_monotone (pos m) (negsuc n) h = ground arith
