-- ===== src/Payment/Inbox/Tests.antt =====
-- Runs of the webhook inbox, and its theorems at work on them
-- (services/payment-service/src/payment-webhook-inbox.ts).
use kuajing.Base.{◌+◌, ◌≤◌, ◌≡◌, refl, true, false, none, some, [], ◌∷◌, All, length, arith}
use kuajing.Base.Text.{Text, codes, text_eq}
use kuajing.Payment.Inbox.{
  processing, processed, failed, ClaimInput, EventRow, new_event, count, mark,
  mark_processing_failure, next_webhook_failure, delay_ms,
}
use kuajing.Payment.Inbox.Lease.{is_due, among, claim_due, claim_due_leased}
use kuajing.Payment.Inbox.Failures.{after_failures, after_failures_lem}

-- A hash that tells the payloads below apart.
abbrev hash : Text → Text
hash payload = payload

abbrev input : Text → ClaimInput
input payload = record {
  store_id = codes "st";
  provider = codes "paypal";
  event_id = codes "e";
  provider_payment_id = codes "p";
  order_id = none;
  event_type = codes "paid";
  payload = payload;
  correlation_id = none;
  max_attempts = none;
}

abbrev event : EventRow
event = new_event hash 5 (input (codes "a"))

abbrev settled : EventRow
settled = record event { status = processed; processed_at = some 6 }

-- The first failure of an event leaves it in processing, a second later.
fail_once :
    (mark_processing_failure 5 event (codes "no") (event ∷ [])).1
    ≡ record event { attempt_count = 2; last_error = some (codes "no"); next_attempt_at = 1005 }
      ∷ []
unfolding mark_processing_failure mark count next_webhook_failure delay_ms text_eq
fail_once = refl

claim_due_leased_example :
    let (claimed, rows) = claim_due 10 30 9 (event ∷ []) in
    (length claimed ≤ 10)
    × All (λ (r : EventRow). is_due 9 r ≡ true) claimed
    × All (λ (r : EventRow). among r claimed ≡ false) (claim_due 10 30 20 rows).0
claim_due_leased_example = claim_due_leased 10 30 9 20 (event ∷ []) (omega arith)

after_failures_lem_example :
    (after_failures 8 3 ≡ (processing, 3 + 1)) × (after_failures 8 8 ≡ (failed, 8))
after_failures_lem_example = after_failures_lem 8 3 (omega arith)
