-- ===== src/Payment/Inbox.antt =====
-- The inbox of payment webhooks (services/payment-service/src/payment-webhook-inbox.ts) over the
-- rows of `payment_webhook_events`, listed as they were received. The payload stands for its JSON
-- text, and the hash of a payload is an argument.
pub mod Lease
pub mod Failures
pub mod Claims
pub mod Marks
mod Tests
use kuajing.Base.{
  ℕ, ◌+◌, ◌-◌, ◌*◌, ◌^◌, Bool, true, false, ◌&&◌, Option, none, some, List, [], ◌∷◌, ◌++◌, ◌⊎◌, inl,
  inr, if◌then◌else◌, find, map, take, leb, ◌==◌, min, or_else,
}
use kuajing.Base.Text.{Text, text_eq, codes}

-- `PaymentWebhookStatus`
pub data WebhookStatus : Type 0 where
  processing processed failed : WebhookStatus

-- `WebhookClaimDecision`
pub data ClaimDecision : Type 0 where
  claim_new claim_retry duplicate_processing duplicate_processed payload_conflict : ClaimDecision

-- `PaymentWebhookPayloadConflictError` and `PaymentWebhookStateConflictError`
pub data InboxError : Type 0 where
  payload_error state_error : InboxError

-- `PaymentWebhookClaimInput`
pub record ClaimInput : Type 0 where
  pub store_id : Text
  pub provider : Text
  pub event_id : Text
  pub provider_payment_id : Text
  pub order_id : Option Text
  pub event_type : Text
  pub payload : Text
  pub correlation_id : Option Text
  pub max_attempts : Option ℕ

-- `WebhookRow`, with the time of the next attempt.
pub record EventRow : Type 0 where
  pub store_id : Text
  pub provider : Text
  pub event_id : Text
  pub provider_payment_id : Text
  pub order_id : Option Text
  pub event_type : Text
  pub payload : Text
  pub payload_hash : Text
  pub status : WebhookStatus
  pub attempt_count : ℕ
  pub max_attempts : ℕ
  pub next_attempt_at : ℕ
  pub correlation_id : Text
  pub last_error : Option Text
  pub processed_at : Option ℕ

-- `PaymentWebhookClaimResult`
pub record ClaimResult : Type 0 where
  pub decision : ClaimDecision
  pub status : WebhookStatus
  pub attempt_count : ℕ

-- `decideWebhookClaim`
pub decide_webhook_claim : Option (WebhookStatus × Text) → Text → ClaimDecision
decide_webhook_claim none payload_hash = claim_new
decide_webhook_claim (some (status, hash)) payload_hash =
    if text_eq hash payload_hash
    then elim status [
      | failed ↦ claim_retry
      | processed ↦ duplicate_processed
      | processing ↦ duplicate_processing
    ]
    else payload_conflict

-- `nextWebhookFailure`
pub next_webhook_failure : ℕ → ℕ → WebhookStatus × ℕ
next_webhook_failure attempt_count max_attempts =
    if leb max_attempts attempt_count
    then (failed, max_attempts)
    else (processing, attempt_count + 1)

-- `WHERE store_id = $1 AND provider = $2 AND event_id = $3`
abbrev pub has_key : Text → Text → Text → EventRow → Bool
has_key store_id provider event_id r =
    text_eq r.store_id store_id && text_eq r.provider provider && text_eq r.event_id event_id

abbrev pub key_of : ClaimInput → EventRow → Bool
key_of input = has_key input.store_id input.provider input.event_id

abbrev pub is_processing : WebhookStatus → Bool
is_processing processing = true
is_processing processed = false
is_processing failed = false

abbrev pub is_failed : WebhookStatus → Bool
is_failed failed = true
is_failed processing = false
is_failed processed = false

-- The row that `claim` inserts.
abbrev pub new_event : (Text → Text) → ℕ → ClaimInput → EventRow
new_event hash now input = record {
  store_id = input.store_id;
  provider = input.provider;
  event_id = input.event_id;
  provider_payment_id = input.provider_payment_id;
  order_id = input.order_id;
  event_type = input.event_type;
  payload = input.payload;
  payload_hash = hash input.payload;
  status = processing;
  attempt_count = 1;
  max_attempts = or_else input.max_attempts 8;
  next_attempt_at = now;
  correlation_id = or_else input.correlation_id (codes "unknown");
  last_error = none;
  processed_at = none;
}

-- `UPDATE … WHERE p`
abbrev pub update_where : (EventRow → Bool) → (EventRow → EventRow) → EventRow → EventRow
update_where p change r = if p r then change r else r

-- `rowCount`
pub count : (EventRow → Bool) → List EventRow → ℕ
count p [] = 0
count p (r ∷ rs) = let rest = count p rs in if p r then rest + 1 else rest

abbrev pub retried : ℕ → EventRow → EventRow
retried now r = record r {
  status = processing;
  attempt_count = 1;
  next_attempt_at = now;
  last_error = none;
}

-- The failed row of an event, which `claim` takes up again.
abbrev pub failed_key : ClaimInput → EventRow → Bool
failed_key input r = key_of input r && is_failed r.status

-- The branch of `claim` for an event that is there.
pub claim_existing :
    ℕ
    → ClaimInput
    → EventRow
    → ClaimDecision
    → List EventRow
    → (InboxError ⊎ ClaimResult) × List EventRow
claim_existing now input r payload_conflict rows = (inl payload_error, rows)
claim_existing now input r claim_retry rows = elim (find (failed_key input) rows) [
  | none ↦ (inl state_error, rows)
  | some f ↦ (
    inr (record { decision = claim_retry; status = processing; attempt_count = 1 }),
    map (update_where (failed_key input) (retried now)) rows,
  )
]
claim_existing now input r decision rows =
    (inr (record { decision = decision; status = r.status; attempt_count = r.attempt_count }), rows)

-- `claim`
pub claim :
    (Text → Text) → ℕ → ClaimInput → List EventRow → (InboxError ⊎ ClaimResult) × List EventRow
claim hash now input rows = elim (find (key_of input) rows) [
  | none ↦ (
    inr (record { decision = claim_new; status = processing; attempt_count = 1 }),
    rows ++ (new_event hash now input ∷ []),
  )
  | some r ↦
      claim_existing now input r
        (decide_webhook_claim (some (r.status, r.payload_hash)) (hash input.payload)) rows
]

-- A row that is being processed, by its key.
abbrev pub open_key : Text → Text → Text → EventRow → Bool
open_key store_id provider event_id r =
    has_key store_id provider event_id r && is_processing r.status

-- An update of the rows being processed under a key, refused unless it hits one row.
pub mark :
    Text
    → Text
    → Text
    → (EventRow → EventRow)
    → List EventRow
    → (InboxError ⊎ Unit {0}) × List EventRow
mark store_id provider event_id change rows =
    let rows' = map (update_where (open_key store_id provider event_id) change) rows in
    if count (open_key store_id provider event_id) rows == 1
    then (inr tt, rows')
    else (inl state_error, rows')

-- `markProcessed`
pub mark_processed :
    ℕ → Text → Text → Text → List EventRow → (InboxError ⊎ Unit {0}) × List EventRow
mark_processed now store_id provider event_id =
    mark store_id provider event_id
      (λ r. record r { status = processed; processed_at = some now; last_error = none })

-- `markFailed`
pub mark_failed :
    Text → Text → Text → Text → List EventRow → (InboxError ⊎ Unit {0}) × List EventRow
mark_failed store_id provider event_id error =
    mark store_id provider event_id
      (λ r. record r { status = failed; last_error = some (take 1000 error) })

-- `Math.min(60000, 1000 * 2 ** Math.min(task.attemptCount - 1, 6))`, for a count of at least one.
pub delay_ms : ℕ → ℕ
delay_ms attempt_count = min 60000 (1000 * 2 ^ min (attempt_count - 1) 6)

-- `markProcessingFailure`; a claimed task is the row as it was claimed.
pub mark_processing_failure :
    ℕ → EventRow → Text → List EventRow → (InboxError ⊎ Unit {0}) × List EventRow
mark_processing_failure now task error =
    let (status, attempts) = next_webhook_failure task.attempt_count task.max_attempts in
    mark task.store_id task.provider task.event_id (λ r. record r {
      status = status;
      attempt_count = attempts;
      last_error = some (take 1000 error);
      next_attempt_at = now + delay_ms task.attempt_count;
    })
