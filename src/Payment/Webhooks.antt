-- ===== src/Payment/Webhooks.antt =====
-- The worker that settles the payment webhooks in the inbox
-- (services/payment-service/src/payment-webhook-worker.ts). What the order service answers is an
-- argument, and so are the decoding of the JSON payload and the texts of errors.
pub mod Confirmed
mod Tests
use kuajing.Base.{
  ℕ, ◌==◌, Bool, true, false, ◌&&◌, not, Option, none, some, List, [], ◌∷◌, ◌⊎◌, inl, inr,
  if◌then◌else◌,
}
use kuajing.Base.Text.{Text, text_eq, codes}
use kuajing.Base.Failure.{thrown, Result, ok, err, ◌>>◌, throw_if}
use kuajing.Payment.Inbox.{
  EventRow, InboxError, state_error, mark_processed, mark_processing_failure,
}
use kuajing.Payment.Inbox.Lease.{claim_due}
use kuajing.Payment.Refund.{ProviderStatus}
use kuajing.Payment.Refund.Settle.{RefundEvent}
use kuajing.Payment.Transactions.{PaidInput}

-- The status of a payload that is not of a refund; the JSON may hold any text there.
pub data CaptureStatus : Type 0 where
  paid other : CaptureStatus

-- `PaymentWebhookResult`, as far as the worker reads it; the status of a refund without its prefix.
pub record CaptureResult : Type 0 where
  pub status : CaptureStatus
  pub amount_minor : ℕ
  pub currency : Text
  pub provider_capture_id : Option Text

pub record RefundResult : Type 0 where
  pub status : ProviderStatus
  pub provider_refund_id : Text
  pub amount_minor : ℕ
  pub currency : Text

pub data WebhookResult : Type 0 where
  of_capture : CaptureResult → WebhookResult
  of_refund : RefundResult → WebhookResult

-- What the worker reads of an order; a field may be missing.
pub record OrderDetail : Type 0 where
  pub total_minor : Option ℕ
  pub currency : Option Text

-- The `options` of `processPaymentWebhookTask` on the state `W` of the services behind them: the
-- lookup of an order gives nothing when it fails, and a confirmation gives whether it succeeded.
pub record Services (W : Type 0) : Type 0 where
  pub payload_of : Text → WebhookResult
  pub get_order : Text → W → Option OrderDetail
  pub confirm_payment : Text → Text → W → Bool × W
  pub mark_transaction_paid : PaidInput → W → Result (Unit {0}) × W
  pub reconcile_refund : Option (RefundEvent → W → Result (Unit {0}) × W)

-- `!text`
abbrev pub is_blank : Option Text → Bool
is_blank none = true
is_blank (some []) = true
is_blank (some (c ∷ cs)) = false

abbrev pub is_paid : CaptureStatus → Bool
is_paid paid = true
is_paid other = false

-- The checks before the order is looked up.
abbrev pub check_capture : EventRow → CaptureResult → Result (Unit {0})
check_capture task payload =
    throw_if (not (is_paid payload.status)) thrown
    >> throw_if (is_blank task.order_id) thrown
    >> throw_if (text_eq task.provider (codes "paypal") && is_blank payload.provider_capture_id)
        thrown

-- A total or a currency that is missing differs from every other.
abbrev pub fits : Option ℕ → Option Text → CaptureResult → Bool
fits none currency payload = false
fits (some total) none payload = false
fits (some total) (some currency) payload =
    total == payload.amount_minor && text_eq currency payload.currency

abbrev pub matches : OrderDetail → CaptureResult → Bool
matches detail payload = fits detail.total_minor detail.currency payload

abbrev pub refund_event : EventRow → RefundResult → RefundEvent
refund_event task payload = record {
  store_id = task.store_id;
  provider_refund_id = payload.provider_refund_id;
  status = payload.status;
  amount_minor = payload.amount_minor;
  currency = payload.currency;
}

abbrev pub paid_input : EventRow → Text → CaptureResult → PaidInput
paid_input task order_id payload = record {
  store_id = task.store_id;
  order_id = order_id;
  provider = task.provider;
  provider_payment_id = task.provider_payment_id;
  provider_capture_id = payload.provider_capture_id;
  event_id = task.event_id;
  amount_minor = payload.amount_minor;
  currency = payload.currency;
}

module _ {W : Type 0} (services : Services W) (task : EventRow) where
  -- The order is compared with the payment, confirmed, and the payment is marked.
  unfoldable pub settle_capture : Text → CaptureResult → W → Result (Unit {0}) × W
  settle_capture order_id payload w = elim (services.get_order order_id w) [
    | none ↦ (err thrown, w)
    | some detail ↦
        let (done, w') = services.confirm_payment order_id task.event_id w in
        if matches detail payload
        then if done
          then services.mark_transaction_paid (paid_input task order_id payload) w'
          else (err thrown, w')
        else (err thrown, w)
  ]

  unfoldable pub process_capture : CaptureResult → W → Result (Unit {0}) × W
  process_capture payload w = elim (check_capture task payload) [
    | err e ↦ (err e, w)
    | ok _ ↦ elim task.order_id [
      | none ↦ (err thrown, w)
      | some order_id ↦ settle_capture order_id payload w
    ]
  ]

  -- `processPaymentWebhookTask`
  unfoldable pub process_payment_webhook_task : W → Result (Unit {0}) × W
  process_payment_webhook_task w = elim (services.payload_of task.payload) [
    | of_refund payload ↦ elim services.reconcile_refund [
      | none ↦ (err thrown, w)
      | some reconcile ↦ reconcile (refund_event task payload) w
    ]
    | of_capture payload ↦ process_capture payload w
  ]

-- `markProcessed`, unless the event has failed.
abbrev pub mark_done :
    ℕ → EventRow → Result (Unit {0}) → List EventRow → (InboxError ⊎ Unit {0}) × List EventRow
mark_done now task done rows = elim done [
  | ok _ ↦ mark_processed now task.store_id task.provider task.event_id rows
  | err _ ↦ (inl state_error, rows)
]

-- The body of the loop in `runOnce`: an event is processed and marked, and what fails of that is
-- recorded as a failure of the event.
unfoldable pub process_one :
    {W : Type 0}
    → Services W
    → (EventRow → Text)
    → ℕ
    → EventRow
    → W × List EventRow
    → (InboxError ⊎ Unit {0}) × (W × List EventRow)
process_one services message now task (w, rows) =
    let (done, w') = process_payment_webhook_task services task w in
    let (marked, rows') = mark_done now task done rows in
    let (recorded, failed_rows) = mark_processing_failure now task (message task) rows' in
    elim marked [ inr _ ↦ (inr tt, (w', rows')) | inl _ ↦ (recorded, (w', failed_rows)) ]

-- The loop; an error that cannot be recorded ends it.
unfoldable pub process_all :
    {W : Type 0}
    → Services W
    → (EventRow → Text)
    → ℕ
    → List EventRow
    → W × List EventRow
    → W × List EventRow
process_all services message now [] s = s
process_all services message now (task ∷ tasks) s =
    let (done, s') = process_one services message now task s in
    elim done [ inl _ ↦ s' | inr _ ↦ process_all services message now tasks s' ]

-- `runOnce`, which does nothing while another run is under way.
unfoldable pub run_once :
    {W : Type 0}
    → Services W
    → (EventRow → Text)
    → Bool
    → ℕ
    → ℕ
    → ℕ
    → ℕ
    → W × List EventRow
    → W × List EventRow
run_once services message running batch_size lease_ms now later (w, rows) =
    let (tasks, rows') = claim_due batch_size lease_ms now rows in
    if running then (w, rows) else process_all services message later tasks (w, rows')
