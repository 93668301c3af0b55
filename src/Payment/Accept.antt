-- ===== src/Payment/Accept.antt =====
-- The handler of PayPal's webhooks (services/payment-service/src/paypal-webhook-handler.ts). The
-- provider, which verifies the request, is an argument.
use kuajing.Base.{
  ℕ, ◌≡◌, Option, none, some, List, [], ◌∷◌, ◌++◌, ◌⊎◌, inl, inr, find, refl, ap, ◌∙◌,
}
use kuajing.Base.Text.{Text, codes}
use kuajing.Payment.Inbox.{
  ClaimDecision, claim_new, duplicate_processing, ClaimInput, ClaimResult, EventRow, InboxError,
  key_of, new_event, claim,
}
use kuajing.Payment.Inbox.Claims.{claim_twice}

-- What the route reads of a `PaymentWebhookResult`, and the JSON text of the whole.
pub record VerifiedEvent : Type 0 where
  pub event_id : Text
  pub event_type : Text
  pub provider_payment_id : Text
  pub order_id : Option Text
  pub json : Text

-- The parameters of `acceptPayPalWebhook` that are values.
pub record WebhookRequest : Type 0 where
  pub store_id : Text
  pub correlation_id : Text
  pub raw_body : Option Text

-- What the route answers besides `accepted`.
pub record Accepted : Type 0 where
  pub event_id : Text
  pub decision : ClaimDecision

-- `PayPalWebhookRequestError`, an error of `verifyWebhook` or one of the inbox.
pub data AcceptError : Type 0 where
  request_error verify_error : AcceptError
  inbox_error : InboxError → AcceptError

abbrev pub claim_input : WebhookRequest → VerifiedEvent → ClaimInput
claim_input request event = record {
  store_id = request.store_id;
  provider = codes "paypal";
  event_id = event.event_id;
  provider_payment_id = event.provider_payment_id;
  order_id = event.order_id;
  event_type = event.event_type;
  payload = event.json;
  correlation_id = some request.correlation_id;
  max_attempts = none;
}

module _ (verify_webhook : Text → Option VerifiedEvent) (hash : Text → Text) (now : ℕ)
    (request : WebhookRequest) where
  abbrev pub answered : VerifiedEvent → InboxError ⊎ ClaimResult → AcceptError ⊎ Accepted
  answered event (inl e) = inl (inbox_error e)
  answered event (inr c) = inr (record { event_id = event.event_id; decision = c.decision })

  unfoldable pub accept_body : Text → List EventRow → (AcceptError ⊎ Accepted) × List EventRow
  accept_body body rows = elim (verify_webhook body) [
    | none ↦ (inl verify_error, rows)
    | some event ↦
        let (claimed, rows') = claim hash now (claim_input request event) rows in
        (answered event claimed, rows')
  ]

  abbrev pub accept_raw : Option Text → List EventRow → (AcceptError ⊎ Accepted) × List EventRow
  accept_raw none rows = (inl request_error, rows)
  accept_raw (some []) rows = (inl request_error, rows)
  accept_raw (some (c ∷ body)) rows = accept_body (c ∷ body) rows

  -- `acceptPayPalWebhook`
  unfoldable pub accept_paypal_webhook : List EventRow → (AcceptError ⊎ Accepted) × List EventRow
  accept_paypal_webhook = accept_raw request.raw_body

  accept_body_claims :
      (body : Text) (event : VerifiedEvent) {claimed : InboxError ⊎ ClaimResult}
      → (rows : List EventRow) {rows' : List EventRow} → verify_webhook body ≡ some event
      → claim hash now (claim_input request event) rows ≡ (claimed, rows')
      → accept_body body rows ≡ (answered event claimed, rows')
  unfolding accept_body
  accept_body_claims body event rows verified e = rw (accept_body, verified, e) refl

module _ (verify_webhook : Text → Option VerifiedEvent) (hash : Text → Text) (now later : ℕ)
    (request : WebhookRequest) {c : ℕ} {body : Text} {event : VerifiedEvent}
    (rows : List EventRow) where
  -- A verified request for an event that the inbox does not have is accepted and adds its row. The
  -- same request again, while the event is being processed, is accepted as a duplicate and changes
  -- nothing.
  accept_paypal_webhook_twice :
      request.raw_body ≡ some (c ∷ body)
      → verify_webhook (c ∷ body) ≡ some event
      → find (key_of (claim_input request event)) rows ≡ none
      → let rows' = rows ++ (new_event hash now (claim_input request event) ∷ []) in
        (accept_paypal_webhook verify_webhook hash now request rows
          ≡ (inr (record { event_id = event.event_id; decision = claim_new }), rows'))
        × (accept_paypal_webhook verify_webhook hash later request rows'
            ≡ (inr (record { event_id = event.event_id; decision = duplicate_processing }), rows'))
  unfolding accept_paypal_webhook
  accept_paypal_webhook_twice given verified fresh =
      let rows' = rows ++ (new_event hash now (claim_input request event) ∷ []) in
      let (first, second) = claim_twice hash now later (claim_input request event) rows fresh in
      (
        ap (λ raw. accept_raw verify_webhook hash now request raw rows) given
            ∙ accept_body_claims verify_webhook hash now request (c ∷ body) event rows verified
                first,
        ap (λ raw. accept_raw verify_webhook hash later request raw rows') given
            ∙ accept_body_claims verify_webhook hash later request (c ∷ body) event rows' verified
                second,
      )
