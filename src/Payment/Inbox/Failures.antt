-- ===== src/Payment/Inbox/Failures.antt =====
-- How often an event is tried (services/payment-service/src/payment-webhook-inbox.ts).
use kuajing.Base.{
  ℕ, zero, suc, ◌+◌, ◌-◌, ◌^◌, ◌≤◌, ◌<◌, ◌≡◌, refl, true, false, arith, leb, min, ap,
}
use kuajing.Payment.Inbox.{WebhookStatus, processing, failed, next_webhook_failure, delay_ms}

-- The status and the count of an event after some failures in a row.
pub after_failures : ℕ → ℕ → WebhookStatus × ℕ
after_failures max_attempts zero = (processing, 1)
after_failures max_attempts (suc n) =
    next_webhook_failure (after_failures max_attempts n).1 max_attempts

counted :
    (max_attempts n : ℕ) → n < max_attempts → after_failures max_attempts n ≡ (processing, n + 1)
unfolding after_failures next_webhook_failure
counted m zero h = refl
counted m (suc n) h =
    rw (counted m n (omega (arith, h))) (rw below (ap (λ k. (processing, k)) (omega arith)))
  where
    below : leb m (n + 1) ≡ false
    below = ground arith

-- A new event that may be tried m times is still being processed after fewer than m failures in a
-- row, with one attempt more than failures, and has failed after m.
pub after_failures_lem :
    (max_attempts n : ℕ)
    → n < max_attempts
    → (after_failures max_attempts n ≡ (processing, n + 1))
      × (after_failures max_attempts max_attempts ≡ (failed, max_attempts))
unfolding after_failures next_webhook_failure
after_failures_lem (suc m) n h =
    (counted (suc m) n h, rw (counted (suc m) m (omega arith)) (rw reached refl))
  where
    reached : leb (suc m) (m + 1) ≡ true
    reached = ground arith
after_failures_lem zero n h = absurd (omega (arith, h))

pow_pos : (n : ℕ) → 1 ≤ 2 ^ n
pow_pos zero = omega arith
pow_pos (suc n) = omega (arith, pow_pos n)

-- The wait before the next attempt is at least a second and at most a minute.
pub delay_ms_bounds :
    (attempt_count : ℕ) → (1000 ≤ delay_ms attempt_count) × (delay_ms attempt_count ≤ 60000)
unfolding delay_ms
delay_ms_bounds n = (ground (arith, pow_pos (min (n - 1) 6)), ground arith)
