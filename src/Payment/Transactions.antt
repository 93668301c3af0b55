-- ===== src/Payment/Transactions.antt =====
-- The rows of `payment_transactions` as services/payment-service/src/payment-transaction.ts writes
-- them, with the constraints of infra/db/migrations/034-payment-transactions.sql.
pub mod Paid
use kuajing.Base.{
  ℕ, ◌+◌, Bool, true, false, not, ◌&&◌, ◌||◌, Option, none, some, List, [], ◌∷◌, ◌++◌, find, map,
  ◌⊎◌, inl, inr, if◌then◌else◌, ◌==◌,
}
use kuajing.Base.Text.{Text, text_eq}
use kuajing.Base.Failure.{thrown, Result, ok, err}

-- The values of the column `status`.
pub data TransactionStatus : Type 0 where
  created paid failed cancelled partially_refunded refunded : TransactionStatus

-- `CreatedPaymentTransaction`
pub record CreatedInput : Type 0 where
  pub store_id : Text
  pub order_id : Text
  pub provider : Text
  pub provider_payment_id : Text
  pub amount_minor : ℕ
  pub currency : Text
  pub idempotency_key : Text
  pub correlation_id : Text

-- `PaidPaymentTransaction`
pub record PaidInput : Type 0 where
  pub store_id : Text
  pub order_id : Text
  pub provider : Text
  pub provider_payment_id : Text
  pub amount_minor : ℕ
  pub currency : Text
  pub event_id : Text
  pub provider_capture_id : Option Text

pub record PaymentRow : Type 0 where
  pub id : Text
  pub store_id : Text
  pub order_id : Text
  pub provider : Text
  pub provider_payment_id : Text
  pub status : TransactionStatus
  pub amount_minor : ℕ
  pub currency : Text
  pub idempotency_key : Text
  pub correlation_id : Text
  pub latest_event_id : Option Text
  pub provider_capture_id : Option Text
  pub paid_at : Option ℕ
  pub updated_at : ℕ

abbrev pub new_payment : Text → ℕ → CreatedInput → PaymentRow
new_payment id now input = record {
  id = id;
  store_id = input.store_id;
  order_id = input.order_id;
  provider = input.provider;
  provider_payment_id = input.provider_payment_id;
  status = created;
  amount_minor = input.amount_minor;
  currency = input.currency;
  idempotency_key = input.idempotency_key;
  correlation_id = input.correlation_id;
  latest_event_id = none;
  provider_capture_id = none;
  paid_at = none;
  updated_at = now;
}

-- ON CONFLICT (store_id, provider, idempotency_key)
abbrev pub has_payment_key : CreatedInput → PaymentRow → Bool
has_payment_key input r =
    text_eq r.store_id input.store_id
    && text_eq r.provider input.provider
    && text_eq r.idempotency_key input.idempotency_key

-- UNIQUE (store_id, provider, provider_payment_id)
abbrev pub has_payment_id : CreatedInput → PaymentRow → Bool
has_payment_id input r =
    text_eq r.store_id input.store_id
    && text_eq r.provider input.provider
    && text_eq r.provider_payment_id input.provider_payment_id

-- The WHERE of the DO UPDATE.
abbrev pub same_payment : CreatedInput → PaymentRow → Bool
same_payment input r =
    text_eq r.order_id input.order_id
    && text_eq r.provider_payment_id input.provider_payment_id
    && r.amount_minor == input.amount_minor
    && text_eq r.currency input.currency

-- `recordCreated`; the update writes what is there. `is_allowed` is what the table asks of a new row
-- besides its keys: the order, the amount and the form of the currency.
unfoldable pub record_created :
    (PaymentRow → Bool)
    → Text
    → ℕ
    → CreatedInput
    → List PaymentRow
    → Result (Unit {0}) × List PaymentRow
record_created is_allowed id now input rows = elim (find (has_payment_key input) rows) [
  | some r ↦ if same_payment input r then (ok tt, rows) else (err thrown, rows)
  | none ↦ elim (find (has_payment_id input) rows) [
    | some r ↦ (err thrown, rows)
    | none ↦
        if is_allowed (new_payment id now input)
        then (ok tt, rows ++ (new_payment id now input ∷ []))
        else (err thrown, rows)
  ]
]

-- What `createTrackedPayment` reads of a `PaymentIntentRequest` and of a `PaymentIntentResult`.
pub record IntentRequest : Type 0 where
  pub store_id : Text
  pub order_id : Text
  pub amount_minor : ℕ
  pub currency : Text
  pub idempotency_key : Text
  pub correlation_id : Text

pub record IntentResult : Type 0 where
  pub provider : Text
  pub provider_payment_id : Text

pub data TrackedError : Type 0 where
  provider_error persistence_error : TrackedError

abbrev pub created_of : IntentRequest → IntentResult → CreatedInput
created_of request result = record {
  store_id = request.store_id;
  order_id = request.order_id;
  provider = result.provider;
  provider_payment_id = result.provider_payment_id;
  amount_minor = request.amount_minor;
  currency = request.currency;
  idempotency_key = request.idempotency_key;
  correlation_id = request.correlation_id;
}

-- `createTrackedPayment`; the provider may fail.
unfoldable pub create_tracked_payment :
    (PaymentRow → Bool)
    → Text
    → ℕ
    → (IntentRequest → Option IntentResult)
    → IntentRequest
    → List PaymentRow
    → (TrackedError ⊎ IntentResult) × List PaymentRow
create_tracked_payment is_allowed id now create_payment request rows =
    elim (create_payment request) [
      | none ↦ (inl provider_error, rows)
      | some result ↦
          let (recorded, rows') =
            record_created is_allowed id now (created_of request result) rows in
          elim recorded [ ok _ ↦ (inr result, rows') | err _ ↦ (inl persistence_error, rows') ]
    ]

abbrev pub is_payable : TransactionStatus → Bool
is_payable created = true
is_payable paid = true
is_payable _ = false

-- The WHERE of `markPaid`.
abbrev pub is_payment : PaidInput → PaymentRow → Bool
is_payment input r =
    text_eq r.store_id input.store_id
    && text_eq r.provider input.provider
    && text_eq r.provider_payment_id input.provider_payment_id
    && text_eq r.order_id input.order_id
    && r.amount_minor == input.amount_minor
    && text_eq r.currency input.currency
    && is_payable r.status

-- `COALESCE(a, b)`
abbrev pub coalesce {ℓ} : {A : Type ℓ} → Option A → Option A → Option A
coalesce none b = b
coalesce (some a) b = some a

abbrev pub paid_row : ℕ → PaidInput → PaymentRow → PaymentRow
paid_row now input r = record r {
  status = paid;
  latest_event_id = some input.event_id;
  provider_capture_id = coalesce r.provider_capture_id input.provider_capture_id;
  paid_at = coalesce r.paid_at (some now);
  updated_at = now;
}

abbrev pub pay_row : ℕ → PaidInput → PaymentRow → PaymentRow
pay_row now input r = if is_payment input r then paid_row now input r else r

-- `result.rowCount`
unfoldable pub count : (PaymentRow → Bool) → List PaymentRow → ℕ
count p [] = 0
count p (r ∷ rs) = let rest = count p rs in if p r then rest + 1 else rest

-- UNIQUE (store_id, provider, provider_capture_id), where a capture is given
-- (infra/db/migrations/035-payment-capture-id.sql).
abbrev pub has_capture : PaymentRow → PaymentRow → Bool
has_capture p r =
    text_eq p.store_id r.store_id && text_eq p.provider r.provider && elim p.provider_capture_id [
      | none ↦ false
      | some c ↦ elim r.provider_capture_id [ none ↦ false | some d ↦ text_eq c d ]
    ]

abbrev pub capture_taken : ℕ → PaidInput → List PaymentRow → Bool
capture_taken now input rows = elim (find (is_payment input) rows) [
  | none ↦ false
  | some r ↦
      elim (find (λ x. not (is_payment input x) && has_capture (paid_row now input r) x) rows) [
        | none ↦ false
        | some x ↦ true
      ]
]

-- `markPaid`
unfoldable pub mark_paid : ℕ → PaidInput → List PaymentRow → Result (Unit {0}) × List PaymentRow
mark_paid now input rows =
    let rows' = map (pay_row now input) rows in
    if capture_taken now input rows
    then (err thrown, rows)
    else if count (is_payment input) rows == 1
    then (ok tt, rows')
    else (err thrown, rows')
