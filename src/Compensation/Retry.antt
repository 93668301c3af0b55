-- ===== src/Compensation/Retry.antt =====
-- `nextRetryAt` of packages/outbox-inbox/src/index.ts, for an attempt count that is an integer of
-- zero or more; times are milliseconds.
use kuajing.Base.{ℕ, zero, suc, ◌+◌, ◌*◌, ◌^◌, ◌≤◌, min, arith}
use native.Mathlib.Nat.{pow-suc}

-- `Math.min(900, 2 ** attemptCount * 5)`
abbrev pub delay_seconds : ℕ → ℕ
delay_seconds n = min 900 (2 ^ n * 5)

unfoldable pub next_retry_at : ℕ → ℕ → ℕ
next_retry_at attempt_count now = now + delay_seconds attempt_count * 1000

pow-pos : (n : ℕ) → 1 ≤ 2 ^ n
pow-pos zero = omega arith
pow-pos (suc n) = omega (arith, pow-pos n, pow-suc 2 n)

-- A retry is at least five seconds and at most fifteen minutes away, and never nearer than the one
-- before it.
pub next_retry_at_bounds :
    (n now : ℕ)
    → (now + 5000 ≤ next_retry_at n now)
      × (next_retry_at n now ≤ now + 900000)
      × (next_retry_at n now ≤ next_retry_at (suc n) now)
unfolding next_retry_at
next_retry_at_bounds n now = omega (arith, pow-pos n, pow-suc 2 n)
