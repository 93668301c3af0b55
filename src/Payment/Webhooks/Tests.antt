-- ===== src/Payment/Webhooks/Tests.antt =====
-- Runs of the webhook worker, and its theorem at work on them
-- (services/payment-service/src/payment-webhook-worker.ts).
use kuajing.Base.{ℕ, ◌≡◌, refl, true, none, some, [], ◌∷◌}
use kuajing.Base.Text.{codes, text_eq}
use kuajing.Base.Failure.{ok}
use kuajing.Payment.Inbox.{EventRow, new_event}
use kuajing.Payment.Transactions.{
  CreatedInput, PaymentRow, new_payment, record_created, mark_paid, count,
}
use kuajing.Payment.Webhooks.{
  CaptureResult, Services, of_capture, paid, process_payment_webhook_task, process_capture,
  settle_capture,
}
use kuajing.Payment.Webhooks.Confirmed.{
  with_payments, IsPaidFor, process_payment_webhook_task-IsPaid,
}

abbrev created_input : CreatedInput
created_input = record {
  store_id = codes "st";
  order_id = codes "o";
  provider = codes "paypal";
  provider_payment_id = codes "p";
  amount_minor = 900;
  currency = codes "EUR";
  idempotency_key = codes "k";
  correlation_id = codes "c";
}

abbrev payment : PaymentRow
payment = new_payment (codes "id") 1 created_input

-- A payment that is created again with its key is there already.
create_again :
    record_created (λ r. true) (codes "other") 2 created_input (payment ∷ [])
    ≡ (ok tt, payment ∷ [])
unfolding record_created text_eq
create_again = refl

abbrev event : EventRow
event =
    new_event (λ payload. payload) 5
      (record {
        store_id = codes "st";
        provider = codes "paypal";
        event_id = codes "e";
        provider_payment_id = codes "p";
        order_id = some (codes "o");
        event_type = codes "paid";
        payload = codes "{}";
        correlation_id = none;
        max_attempts = none;
      })

abbrev capture : CaptureResult
capture = record {
  status = paid;
  amount_minor = 900;
  currency = codes "EUR";
  provider_capture_id = some (codes "cap");
}

-- The order service counts the confirmations.
abbrev services : ℕ → Services ℕ
services total = record {
  payload_of = λ payload. of_capture capture;
  get_order =
      λ order_id n. some (record { total_minor = some total; currency = some (codes "EUR") });
  confirm_payment = λ order_id key n. (true, 1);
  mark_transaction_paid = λ input n. (ok tt, n);
  reconcile_refund = none;
}

-- A payment of another amount than the order's is not confirmed.
other_amount :
    (process_payment_webhook_task (with_payments 7 (services 901)) event (0, payment ∷ [])).1
    ≡ (0, payment ∷ [])
unfolding process_payment_webhook_task process_capture settle_capture text_eq
other_amount = refl

processed_once :
    (process_payment_webhook_task (with_payments 7 (services 900)) event (0, payment ∷ [])).0
    ≡ ok tt
unfolding process_payment_webhook_task process_capture settle_capture text_eq mark_paid count
processed_once = refl

process_payment_webhook_task-IsPaid_example :
    IsPaidFor 7
      (services 900)
      event
      capture
      (0, payment ∷ [])
      (process_payment_webhook_task (with_payments 7 (services 900)) event (0, payment ∷ [])).1
process_payment_webhook_task-IsPaid_example =
    process_payment_webhook_task-IsPaid 7 (services 900) event capture (0, payment ∷ []) refl
      processed_once
