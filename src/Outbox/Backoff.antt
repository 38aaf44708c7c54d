-- ===== src/Outbox/Backoff.antt =====
-- `backoffDuration` of internal/platform/outbox/relay.go, in nanoseconds.
pub mod Bounds
use go_sunabar_payments.Base.{
  ℕ, zero, suc, ◌+◌, ◌-◌, ◌*◌, ◌^◌, ◌≤◌, ◌<◌, ◌≡◌, refl, Bool, true, false, arith, ltb, leb,
  if◌then◌else◌,
}
use go_sunabar_payments.Base.Int.{ℤ, pos, negsuc, ltb_ℤ, pos_part, wrap64}
use go_sunabar_payments.Transfer.Breaker.{second}

abbrev pub ten_minutes : ℕ
ten_minutes = 600 * second

-- A count of seconds as a `time.Duration`: the product of two int64, with its wrap-around.
abbrev pub seconds : ℤ → ℤ
seconds (pos n) = wrap64 (pos (n * second))
seconds (negsuc n) = wrap64 (negsuc (n * second + (second - 1)))

-- `time.Duration(1<<attempt) * time.Second`: the shift drops what an int64 does not hold.
unfoldable pub shifted_seconds : ℕ → ℤ
shifted_seconds n = seconds (wrap64 (pos (2 ^ n)))

unfoldable pub backoff_duration : ℤ → ℤ
unfolding shifted_seconds
backoff_duration attempt =
    let low = if ltb_ℤ attempt (pos 0) then pos 0 else attempt in
    let n = pos_part (if ltb_ℤ (pos 30) low then pos 30 else low) in
    let d = shifted_seconds n in if ltb_ℤ (pos ten_minutes) d then pos ten_minutes else d

-- `Add` of a duration to an instant; an instant is not before the zero time.
abbrev pub add_duration : ℕ → ℤ → ℕ
add_duration at (pos d) = at + d
add_duration at (negsuc d) = at - suc d
