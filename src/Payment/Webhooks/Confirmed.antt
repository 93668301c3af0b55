-- ===== src/Payment/Webhooks/Confirmed.antt =====
-- What it takes that the webhook of a payment is settled
-- (services/payment-service/src/payment-webhook-worker.ts, `processPaymentWebhookTask`).
use kuajing.Base.{
  ℕ, ◌≡◌, true, Option, none, some, List, arith, inl, inr, Bool-cases, Option-cases, ◌∙◌, sym, ap,
  subst,
}
use kuajing.Base.Text.{Text, text_eq_iff}
use kuajing.Base.Failure.{Result, ok, Result-cases}
use kuajing.Payment.Inbox.{EventRow}
use kuajing.Payment.Transactions.{PaymentRow, mark_paid}
use kuajing.Payment.Transactions.Paid.{row_at, IsPaymentOf, IsMarked, mark_paid-IsPaid}
use kuajing.Payment.Webhooks.{
  Services, CaptureResult, OrderDetail, of_capture, settle_capture, process_capture,
  process_payment_webhook_task, paid_input, matches, fits, check_capture,
}

-- The order of a payment has its amount and currency.
abbrev pub IsOfAmount : CaptureResult → OrderDetail → Type 0
IsOfAmount payload detail =
    (detail.total_minor ≡ some payload.amount_minor) × (detail.currency ≡ some payload.currency)

fits-IsOfAmount :
    (total : Option ℕ) (currency : Option Text) (payload : CaptureResult)
    → fits total currency payload ≡ true
    → (total ≡ some payload.amount_minor) × (currency ≡ some payload.currency)
fits-IsOfAmount none currency payload h = absurd (ground arith)
fits-IsOfAmount (some total) none payload h = absurd (ground arith)
fits-IsOfAmount (some total) (some currency) payload h =
    ground (arith, text_eq_iff currency payload.currency)

module _ {W : Type 0} (services : Services W) (task : EventRow) (payload : CaptureResult) where
  -- The order was looked up and fits, its payment was confirmed, and what is left to the payment
  -- service gives the answer.
  abbrev pub IsConfirmed : Text → W → Result (Unit {0}) × W → Type 0
  IsConfirmed order_id w after =
      (detail : OrderDetail) × (services.get_order order_id w ≡ some detail)
      × IsOfAmount payload detail
      × ((services.confirm_payment order_id task.event_id w).0 ≡ true)
      × (after
          ≡ services.mark_transaction_paid (paid_input task order_id payload)
              (services.confirm_payment order_id task.event_id w).1)

  settle_capture-IsConfirmed :
      (order_id : Text) (w : W)
      → (settle_capture services task order_id payload w).0 ≡ ok tt
      → IsConfirmed order_id w (settle_capture services task order_id payload w)
  unfolding settle_capture
  settle_capture-IsConfirmed order_id w h = elim (Option-cases (services.get_order order_id w)) [
    | inl e ↦ absurd (ground arith)
    | inr (detail, e) ↦ elim (Bool-cases (matches detail payload)) [
      | inr f ↦ absurd (ground arith)
      | inl f ↦ elim (Bool-cases (services.confirm_payment order_id task.event_id w).0) [
        | inr g ↦ absurd (ground arith)
        | inl g ↦ (
          detail,
          e,
          fits-IsOfAmount detail.total_minor detail.currency payload f,
          g,
          ground arith,
        )
      ]
    ]
  ]

  process_capture_settles :
      (w : W) {order_id : Text}
      → check_capture task payload ≡ ok tt
      → task.order_id ≡ some order_id
      → process_capture services task payload w ≡ settle_capture services task order_id payload w
  unfolding process_capture
  process_capture_settles w f g = ground arith

  process_capture-IsConfirmed :
      (w : W)
      → (process_capture services task payload w).0 ≡ ok tt
      → (order_id : Text) × (task.order_id ≡ some order_id)
        × IsConfirmed order_id w (process_capture services task payload w)
  unfolding process_capture
  process_capture-IsConfirmed w h = elim (Result-cases (check_capture task payload)) [
    | inr (e, f) ↦ absurd (ground arith)
    | inl (_, f) ↦ elim (Option-cases task.order_id) [
      | inl g ↦ absurd (ground arith)
      | inr (order_id, g) ↦
          let same = process_capture_settles w f g in
          (
            order_id,
            g,
            subst (λ r. IsConfirmed order_id w r) (sym same)
                (settle_capture-IsConfirmed order_id w (ap (λ r. r.0) (sym same) ∙ h)),
          )
    ]
  ]

-- The payment service over the orders: it keeps the rows of its payments beside them.
abbrev pub with_payments : {O : Type 0} → ℕ → Services O → Services (O × List PaymentRow)
with_payments now services = record {
  payload_of = services.payload_of;
  get_order = λ order_id w. services.get_order order_id w.0;
  confirm_payment = λ order_id key w.
      let (done, orders) = services.confirm_payment order_id key w.0 in (done, (orders, w.1));
  mark_transaction_paid =
      λ input w. let (done, rows) = mark_paid now input w.1 in (done, (w.0, rows));
  reconcile_refund = elim services.reconcile_refund [
    | none ↦ none
    | some reconcile ↦
        some (λ event w. let (done, orders) = reconcile event w.0 in (done, (orders, w.1)))
  ];
}

module _ {O : Type 0} (now : ℕ) (services : Services O) (task : EventRow) where
  -- The row of the payment, and what it is after.
  abbrev pub IsRowPaid : CaptureResult → Text → List PaymentRow → List PaymentRow → Type 0
  IsRowPaid payload order_id rows rows' =
      (n : ℕ) × (r r' : PaymentRow) × (row_at n rows ≡ some r)
      × (row_at n rows' ≡ some r')
      × IsPaymentOf task.store_id task.provider task.provider_payment_id order_id
          payload.amount_minor payload.currency r
      × IsMarked task.event_id payload.provider_capture_id r r'

  pub record IsPaidFor (payload : CaptureResult) (before after : O × List PaymentRow) : Type 0 where
    pub order_id : Text
    pub names : task.order_id ≡ some order_id
    pub detail : OrderDetail
    pub looked_up : services.get_order order_id before.0 ≡ some detail
    pub of_amount : IsOfAmount payload detail
    pub confirmed : services.confirm_payment order_id task.event_id before.0 ≡ (true, after.0)
    pub row_paid : IsRowPaid payload order_id before.1 after.1

  marked-IsPaidFor :
      (payload : CaptureResult) (w : O × List PaymentRow) {order_id : Text}
      → (r : Result (Unit {0}) × (O × List PaymentRow)) → task.order_id ≡ some order_id
      → IsConfirmed (with_payments now services) task payload order_id w r
      → r.0 ≡ ok tt
      → IsPaidFor payload w r.1
  marked-IsPaidFor payload w {order_id} r g (detail, found, amount, done, after) =
      subst (λ s. s.0 ≡ ok tt → IsPaidFor payload w s.1) (sym after)
        (λ marked. record {
          order_id = order_id;
          names = g;
          detail = detail;
          looked_up = found;
          of_amount = amount;
          confirmed = ap (λ b. (b, (services.confirm_payment order_id task.event_id w.0).1)) done;
          row_paid = mark_paid-IsPaid now (paid_input task order_id payload) w.1 marked;
        })

  process_payment_webhook_task_capture :
      (payload : CaptureResult) (w : O × List PaymentRow)
      → services.payload_of task.payload ≡ of_capture payload
      → process_payment_webhook_task (with_payments now services) task w
        ≡ process_capture (with_payments now services) task payload w
  unfolding process_payment_webhook_task
  process_payment_webhook_task_capture payload w e = ground arith

  -- When the webhook of a payment is processed without an error, the event names an order, the
  -- order service gave that order with the amount and the currency of the payment, and confirmed
  -- its payment; and a row of the table that has the payment's store, provider, id, order, amount
  -- and currency, and was created or paid before, is paid after, with the event. It keeps the
  -- capture that it has, and takes over the one of the payment if it has none.
  pub process_payment_webhook_task-IsPaid :
      (payload : CaptureResult) (w : O × List PaymentRow)
      → services.payload_of task.payload ≡ of_capture payload
      → (process_payment_webhook_task (with_payments now services) task w).0 ≡ ok tt
      → IsPaidFor payload w (process_payment_webhook_task (with_payments now services) task w).1
  unfolding process_payment_webhook_task
  process_payment_webhook_task-IsPaid payload w e h =
      let same = process_payment_webhook_task_capture payload w e in
      let (order_id, g, confirmed) =
        process_capture-IsConfirmed (with_payments now services) task payload w
          (ap (λ r. r.0) (sym same) ∙ h) in
      subst (λ r. r.0 ≡ ok tt → IsPaidFor payload w r.1) (sym same)
        (marked-IsPaidFor payload w (process_capture (with_payments now services) task payload w) g
          confirmed)
        h
