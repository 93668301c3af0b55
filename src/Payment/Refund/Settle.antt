-- ===== src/Payment/Refund/Settle.antt =====
-- What the provider answers for a refund (services/payment-service/src/payment-refund.ts):
-- `recordProviderResult`, `applyProviderEvent` and `processPaymentRefund`.
pub mod Events
pub mod Within
mod Tests
use kuajing.Base.{
  ℕ, ◌+◌, Bool, true, false, not, ◌&&◌, ◌||◌, Option, none, some, List, [], ◌∷◌, ◌⊎◌, inl, inr,
  if◌then◌else◌, find, map, leb, ltb, ◌==◌,
}
use kuajing.Base.Text.{Text, text_eq}
use kuajing.Payment.Refund.{
  RefundStatus, ProviderStatus, TransactionStatus, paid, partially_refunded, refunded, RefundError,
  conflict_error, state_error, database_error, RefundInput, TransactionRow, RefundRow, Database,
  ClaimDecision, RefundClaim, Decision, replay, conflict, apply, current_of,
  decide_provider_refund_transition, holds_money, is_completed, total, claim,
}

-- `CASE WHEN $3 = 'completed' THEN COALESCE(completed_at, now()) ELSE completed_at END`
abbrev pub completion : ℕ → RefundStatus → Option ℕ → Option ℕ
completion now RefundStatus.completed none = some now
completion now status at = at

-- The `CASE` of `recalculateTransactionRefundStatus`.
pub status_after : ℕ → ℕ → TransactionStatus
status_after refunded_minor amount_minor =
    if leb amount_minor refunded_minor
    then refunded
    else if ltb 0 refunded_minor
    then partially_refunded
    else paid

abbrev pub restatus : Text → List RefundRow → TransactionRow → TransactionRow
restatus transaction_id refunds t =
    if text_eq t.id transaction_id
    then record t {
      status = status_after (total is_completed transaction_id refunds) t.amount_minor;
    }
    else t

-- `recalculateTransactionRefundStatus`
pub recalculate : Text → Database → Database
recalculate transaction_id db = record db {
  transactions = map (restatus transaction_id db.refunds) db.transactions;
}

-- The result of `recordProviderResult`'s input: 'completed' or 'pending'.
pub data ResultStatus : Type 0 where
  pending completed : ResultStatus

abbrev pub status_of : ResultStatus → RefundStatus
status_of pending = RefundStatus.pending
status_of completed = RefundStatus.completed

abbrev pub has_result : Text → RefundRow → Bool
has_result refund_id r = text_eq r.id refund_id && holds_money r.status

abbrev pub with_result : ℕ → Text → Text → ResultStatus → RefundRow → RefundRow
with_result now refund_id provider_refund_id status r =
    if has_result refund_id r
    then record r {
      provider_refund_id = some provider_refund_id;
      status = status_of status;
      completed_at = completion now (status_of status) r.completed_at;
    }
    else r

-- `if (input.status === "completed") await this.recalculateTransactionRefundStatus(…)`
abbrev pub after_result : ResultStatus → Text → Database → Database
after_result completed transaction_id db = recalculate transaction_id db
after_result pending transaction_id db = db

abbrev pub is_named : Text → Option Text → Bool
is_named id none = false
is_named id (some t) = text_eq t id

-- The unique index `payment_refunds_provider_id_idx`: another refund of the store and the provider
-- has the id (infra/db/migrations/036-payment-refunds.sql).
abbrev pub is_holder : RefundRow → Text → RefundRow → Bool
is_holder r provider_refund_id other =
    not (text_eq other.id r.id)
    && text_eq other.store_id r.store_id
    && text_eq other.provider r.provider
    && is_named provider_refund_id other.provider_refund_id

abbrev pub id_taken : RefundRow → Text → List RefundRow → Bool
id_taken r provider_refund_id [] = false
id_taken r provider_refund_id (other ∷ rs) =
    is_holder r provider_refund_id other || id_taken r provider_refund_id rs

-- `recordProviderResult`
pub record_provider_result :
    ℕ → Text → Text → ResultStatus → Database → (RefundError ⊎ Unit {0}) × Database
record_provider_result now refund_id provider_refund_id status db =
    elim (find (has_result refund_id) db.refunds) [
      | none ↦ (inl state_error, db)
      | some r ↦
          let written = after_result status r.payment_transaction_id (record db {
            refunds = map (with_result now refund_id provider_refund_id status) db.refunds;
          }) in
          if id_taken r provider_refund_id db.refunds
          then (inl database_error, db)
          else (inr tt, written)
    ]

-- The input of `applyProviderEvent`.
pub record RefundEvent : Type 0 where
  pub store_id : Text
  pub provider_refund_id : Text
  pub status : ProviderStatus
  pub amount_minor : ℕ
  pub currency : Text

abbrev pub has_event : RefundEvent → RefundRow → Bool
has_event e r = text_eq r.store_id e.store_id && is_named e.provider_refund_id r.provider_refund_id

abbrev pub with_event : ℕ → RefundEvent → RefundRow → RefundRow
with_event now e r =
    if has_event e r
    then record r {
      status = current_of e.status;
      completed_at = completion now (current_of e.status) r.completed_at;
    }
    else r

-- The decision of `applyProviderEvent` and its writes.
pub apply_event : ℕ → RefundEvent → RefundRow → Database → (RefundError ⊎ Unit {0}) × Database
apply_event now e r db = elim (decide_provider_refund_transition r.status e.status) [
  | replay ↦ (inr tt, db)
  | conflict ↦ (inl state_error, db)
  | apply ↦ (
    inr tt,
    recalculate r.payment_transaction_id
        (record db { refunds = map (with_event now e) db.refunds }),
  )
]

-- `applyProviderEvent`
pub apply_provider_event : ℕ → RefundEvent → Database → (RefundError ⊎ Unit {0}) × Database
apply_provider_event now e db = elim (find (has_event e) db.refunds) [
  | none ↦ (inl state_error, db)
  | some r ↦
      if r.amount_minor == e.amount_minor && text_eq r.currency e.currency
      then apply_event now e r db
      else (inl conflict_error, db)
]

-- What the provider is asked to refund.
pub record ProviderRequest : Type 0 where
  pub payment_id : Text
  pub amount_minor : ℕ
  pub currency : Text
  pub idempotency_key : Text

-- What a provider answers to `refundPayment`.
pub record ProviderAnswer : Type 0 where
  pub provider_refund_id : Text
  pub status : ProviderStatus

-- A payment provider: its name and `refundPayment`, as far as the call returns.
pub record Provider : Type 0 where
  pub name : Text
  pub refund_payment : ProviderRequest → ProviderAnswer

-- What `processPaymentRefund` returns.
pub record RefundResult : Type 0 where
  pub refund_id : Text
  pub provider_refund_id : Option Text
  pub status : ProviderStatus

-- What is answered once the result is recorded.
abbrev pub shown :
    RefundResult → (RefundError ⊎ Unit {0}) × Database → (RefundError ⊎ RefundResult) × Database
shown result (inl e, db) = (inl e, db)
shown result (inr u, db) = (inr result, db)

abbrev pub request_of : RefundInput → RefundClaim → ProviderRequest
request_of input c = record {
  payment_id = c.provider_capture_id;
  amount_minor = input.amount_minor;
  currency = input.currency;
  idempotency_key = input.idempotency_key;
}

abbrev pub result_of : RefundClaim → Text → ProviderStatus → RefundResult
result_of c provider_refund_id status = record {
  refund_id = c.refund_id;
  provider_refund_id = some provider_refund_id;
  status = status;
}

-- What follows on the provider's answer: an id and a status.
pub answered :
    ℕ → RefundClaim → Text → ProviderStatus → Database → (RefundError ⊎ RefundResult) × Database
answered now c id ProviderStatus.failed db = (inl state_error, db)
answered now c id ProviderStatus.completed db =
    shown (result_of c id ProviderStatus.completed)
      (record_provider_result now c.refund_id id ResultStatus.completed db)
answered now c id ProviderStatus.pending db =
    shown (result_of c id ProviderStatus.pending)
      (record_provider_result now c.refund_id id ResultStatus.pending db)

-- `processPaymentRefund` behind a claim that is not complete.
pub refund_claimed :
    ℕ → Provider → RefundInput → RefundClaim → Database → (RefundError ⊎ RefundResult) × Database
refund_claimed now provider input c db =
    let answer = provider.refund_payment (request_of input c) in
    if text_eq c.provider provider.name
    then answered now c answer.provider_refund_id answer.status db
    else (inl state_error, db)

-- `if (claim.decision === "completed") { return … }` and what follows it.
pub refund_decided :
    ℕ
    → Provider
    → RefundInput
    → ClaimDecision
    → RefundClaim
    → Database
    → (RefundError ⊎ RefundResult) × Database
refund_decided now provider input ClaimDecision.completed c db = (
  inr (record {
    refund_id = c.refund_id;
    provider_refund_id = c.provider_refund_id;
    status = ProviderStatus.completed;
  }),
  db,
)
refund_decided now provider input ClaimDecision.resume c db = refund_claimed now provider input c db
refund_decided now provider input ClaimDecision.claim_new c db =
    refund_claimed now provider input c db

-- What follows on the claim.
pub on_claim :
    ℕ
    → Provider
    → RefundInput
    → (RefundError ⊎ RefundClaim) × Database
    → (RefundError ⊎ RefundResult) × Database
on_claim now provider input (inl e, db) = (inl e, db)
on_claim now provider input (inr c, db) = refund_decided now provider input c.decision c db

-- `processPaymentRefund`
pub process_payment_refund :
    ℕ → Text → Provider → RefundInput → Database → (RefundError ⊎ RefundResult) × Database
process_payment_refund now refund_id provider input db =
    on_claim now provider input (claim refund_id input db)
