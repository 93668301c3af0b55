-- ===== src/Payment/Refund.antt =====
-- Refunds (services/payment-service/src/payment-refund.ts) over the tables `payment_transactions`
-- and `payment_refunds`. A query with a bound of one row takes the first row of a list; the
-- transactions are listed from the newest on. Identifiers and times are given by the caller.
pub mod Claims
pub mod Summary
pub mod Settle
use kuajing.Base.{
  ℕ, ◌+◌, ◌-◌, Bool, true, false, ◌&&◌, ◌||◌, not, Option, none, some, List, [], ◌∷◌, ◌⊎◌, inl, inr,
  if◌then◌else◌, find, map, leb, ltb, ◌==◌, or_else,
}
use kuajing.Base.Text.{Text, text_eq}

-- `RefundStatus`
pub data RefundStatus : Type 0 where
  processing pending completed failed : RefundStatus

-- `ProviderRefundStatus`
pub data ProviderStatus : Type 0 where
  pending completed failed : ProviderStatus

pub data TransactionStatus : Type 0 where
  created paid failed cancelled partially_refunded refunded : TransactionStatus

-- `PaymentRefundConflictError` and `PaymentRefundStateError`, and the error of a statement that
-- breaks a unique index.
pub data RefundError : Type 0 where
  conflict_error state_error database_error : RefundError

-- `PaymentRefundInput`, with the parts of its store context.
pub record RefundInput : Type 0 where
  pub store_id : Text
  pub correlation_id : Text
  pub order_id : Text
  pub amount_minor : ℕ
  pub currency : Text
  pub idempotency_key : Text
  pub actor_id : Text
  pub reason : Text

-- A row of `payment_transactions`.
pub record TransactionRow : Type 0 where
  pub id : Text
  pub store_id : Text
  pub order_id : Text
  pub provider : Text
  pub provider_capture_id : Option Text
  pub amount_minor : ℕ
  pub currency : Text
  pub status : TransactionStatus

-- A row of `payment_refunds`.
pub record RefundRow : Type 0 where
  pub id : Text
  pub payment_transaction_id : Text
  pub store_id : Text
  pub order_id : Text
  pub provider : Text
  pub provider_refund_id : Option Text
  pub amount_minor : ℕ
  pub currency : Text
  pub status : RefundStatus
  pub idempotency_key : Text
  pub reason : Text
  pub actor_id : Text
  pub correlation_id : Text
  pub completed_at : Option ℕ

pub record Database : Type 0 where
  pub transactions : List TransactionRow
  pub refunds : List RefundRow

pub data ClaimDecision : Type 0 where
  claim_new resume completed : ClaimDecision

-- `RefundClaim`
pub record RefundClaim : Type 0 where
  pub decision : ClaimDecision
  pub refund_id : Text
  pub provider : Text
  pub provider_capture_id : Text
  pub provider_refund_id : Option Text

pub data Decision : Type 0 where
  replay conflict apply : Decision

abbrev pub current_of : ProviderStatus → RefundStatus
current_of pending = RefundStatus.pending
current_of completed = RefundStatus.completed
current_of failed = RefundStatus.failed

-- `decideProviderRefundTransition`
pub decide_provider_refund_transition : RefundStatus → ProviderStatus → Decision
decide_provider_refund_transition RefundStatus.pending ProviderStatus.pending = replay
decide_provider_refund_transition RefundStatus.completed ProviderStatus.completed = replay
decide_provider_refund_transition RefundStatus.failed ProviderStatus.failed = replay
decide_provider_refund_transition RefundStatus.completed incoming = conflict
decide_provider_refund_transition RefundStatus.failed incoming = conflict
decide_provider_refund_transition current incoming = apply

-- `status IN ('processing', 'pending', 'completed')`
abbrev pub holds_money : RefundStatus → Bool
holds_money RefundStatus.processing = true
holds_money RefundStatus.pending = true
holds_money RefundStatus.completed = true
holds_money RefundStatus.failed = false

abbrev pub is_completed : RefundStatus → Bool
is_completed RefundStatus.completed = true
is_completed RefundStatus.processing = false
is_completed RefundStatus.pending = false
is_completed RefundStatus.failed = false

-- `status IN ('paid', 'partially_refunded')`
abbrev pub is_refundable : TransactionStatus → Bool
is_refundable paid = true
is_refundable partially_refunded = true
is_refundable created = false
is_refundable refunded = false
is_refundable TransactionStatus.failed = false
is_refundable TransactionStatus.cancelled = false

-- `COALESCE(SUM(amount_minor), 0)` over the refunds of a transaction in some statuses.
pub total : (RefundStatus → Bool) → Text → List RefundRow → ℕ
total p transaction_id [] = 0
total p transaction_id (r ∷ rs) =
    let rest = total p transaction_id rs in
    if text_eq r.payment_transaction_id transaction_id && p r.status
    then r.amount_minor + rest
    else rest

abbrev pub can_refund : RefundInput → TransactionRow → Bool
can_refund input t =
    text_eq t.store_id input.store_id && text_eq t.order_id input.order_id && is_refundable t.status

abbrev pub has_key : RefundInput → RefundRow → Bool
has_key input r =
    text_eq r.store_id input.store_id && text_eq r.idempotency_key input.idempotency_key

abbrev pub same_refund : RefundInput → RefundRow → Bool
same_refund input r =
    text_eq r.order_id input.order_id
    && r.amount_minor == input.amount_minor
    && text_eq r.currency input.currency

-- The claim of a refund that is there.
pub resume_refund : RefundInput → Text → RefundRow → RefundError ⊎ RefundClaim
resume_refund input capture_id r =
    if same_refund input r
    then elim r.status [
      | RefundStatus.failed ↦ inl state_error
      | RefundStatus.completed ↦ inr (record {
        decision = ClaimDecision.completed;
        refund_id = r.id;
        provider = r.provider;
        provider_capture_id = capture_id;
        provider_refund_id = r.provider_refund_id;
      })
      | _ ↦ inr (record {
        decision = resume;
        refund_id = r.id;
        provider = r.provider;
        provider_capture_id = capture_id;
        provider_refund_id = r.provider_refund_id;
      })
    ]
    else inl conflict_error

abbrev pub new_refund : Text → RefundInput → TransactionRow → RefundRow
new_refund refund_id input t = record {
  id = refund_id;
  payment_transaction_id = t.id;
  store_id = input.store_id;
  order_id = input.order_id;
  provider = t.provider;
  provider_refund_id = none;
  amount_minor = input.amount_minor;
  currency = input.currency;
  status = RefundStatus.processing;
  idempotency_key = input.idempotency_key;
  reason = input.reason;
  actor_id = input.actor_id;
  correlation_id = input.correlation_id;
  completed_at = none;
}

-- `input.amountMinor > transaction.amount_minor - reserved`, with the sum on one side.
pub insert_refund :
    Text → RefundInput → TransactionRow → Text → Database → (RefundError ⊎ RefundClaim) × Database
insert_refund refund_id input t capture_id db =
    if ltb t.amount_minor (input.amount_minor + total holds_money t.id db.refunds)
    then (inl conflict_error, db)
    else (
      inr (record {
        decision = claim_new;
        refund_id = refund_id;
        provider = t.provider;
        provider_capture_id = capture_id;
        provider_refund_id = none;
      }),
      record db { refunds = new_refund refund_id input t ∷ db.refunds },
    )

-- A capture id that is missing or empty.
abbrev pub capture_of : TransactionRow → Option Text
capture_of t = elim t.provider_capture_id [ none ↦ none | some [] ↦ none | some c ↦ some c ]

-- `claim`, once the transaction and its capture are known.
pub claim_captured :
    Text → RefundInput → TransactionRow → Text → Database → (RefundError ⊎ RefundClaim) × Database
claim_captured refund_id input t capture_id db =
    if text_eq t.currency input.currency
    then elim (find (has_key input) db.refunds) [
      | some r ↦ (resume_refund input capture_id r, db)
      | none ↦ insert_refund refund_id input t capture_id db
    ]
    else (inl conflict_error, db)

-- `claim`
pub claim : Text → RefundInput → Database → (RefundError ⊎ RefundClaim) × Database
claim refund_id input db = elim (find (can_refund input) db.transactions) [
  | none ↦ (inl state_error, db)
  | some t ↦ elim (capture_of t) [
    | none ↦ (inl state_error, db)
    | some capture_id ↦ claim_captured refund_id input t capture_id db
  ]
]
