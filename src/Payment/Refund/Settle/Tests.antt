-- ===== src/Payment/Refund/Settle/Tests.antt =====
-- Runs of the refunds, and their theorems at work on them
-- (services/payment-service/src/payment-refund.ts).
use kuajing.Base.{ℕ, ◌≡◌, ◌≤◌, ◌↔◌, refl, some, [], ◌∷◌, inl, inr, find, arith, if◌then◌else◌}
use kuajing.Base.Text.{Text, codes, text_eq, text_eq_iff}
use kuajing.Payment.Refund.{
  RefundStatus, ProviderStatus, TransactionStatus, state_error, RefundInput, TransactionRow,
  RefundRow, Database, claim_new, resume, conflict, decide_provider_refund_transition, total,
  holds_money, new_refund, insert_refund, claim_captured, claim,
}
use kuajing.Payment.Refund.Summary.{
  build_payment_refund_summary, of_transaction, IsClaimed, insert_refund_refundable,
}
use kuajing.Payment.Refund.Claims.{claimed, claim_again}
use kuajing.Payment.Refund.Settle.{
  ResultStatus, has_result, status_after, recalculate, record_provider_result, RefundEvent,
  apply_provider_event, Provider, answered, refund_claimed, refund_decided, on_claim,
  process_payment_refund,
}
use kuajing.Payment.Refund.Settle.Within.{IsWithin, process_payment_refund-IsWithin}
use kuajing.Payment.Refund.Settle.Events.{
  apply_provider_event-IsWithin, record_provider_result_reopens,
}

abbrev captured : TransactionRow
captured = record {
  id = codes "t";
  store_id = codes "st";
  order_id = codes "o";
  provider = codes "paypal";
  provider_capture_id = some (codes "cap");
  amount_minor = 100;
  currency = codes "USD";
  status = TransactionStatus.paid;
}

abbrev input : ℕ → RefundInput
input amount = record {
  store_id = codes "st";
  correlation_id = codes "c";
  order_id = codes "o";
  amount_minor = amount;
  currency = codes "USD";
  idempotency_key = codes "k";
  actor_id = codes "a";
  reason = codes "r";
}

abbrev tables : Database
tables = record { transactions = captured ∷ []; refunds = [] }

abbrev paypal : ProviderStatus → Provider
paypal status = record {
  name = codes "paypal";
  refund_payment = λ request. record { provider_refund_id = codes "p"; status = status };
}

abbrev amount_of : Text → ℕ
amount_of id = if text_eq id (codes "t") then 100 else 0

-- A full refund that completes leaves the transaction refunded; the same request is then answered
-- by an error, since no captured payment is left to claim from.
refund_again :
    let (first, db) =
      process_payment_refund 1 (codes "f1") (paypal ProviderStatus.completed) (input 100) tables in
    (first
      ≡ inr (record {
        refund_id = codes "f1";
        provider_refund_id = some (codes "p");
        status = ProviderStatus.completed;
      }))
    × (process_payment_refund 2 (codes "f2") (paypal ProviderStatus.completed) (input 100) db
        ≡ (inl state_error, db))
unfolding claim claim_captured insert_refund total status_after recalculate record_provider_result
    answered refund_claimed refund_decided on_claim process_payment_refund text_eq
refund_again = (refl, refl)

process_payment_refund-IsWithin_example :
    IsWithin amount_of
      (process_payment_refund 1 (codes "f1") (paypal ProviderStatus.completed) (input 60) tables).1
unfolding total text_eq
process_payment_refund-IsWithin_example =
    process_payment_refund-IsWithin amount_of 1 (codes "f1") (paypal ProviderStatus.completed)
      (input 60) tables ((refl, tt), λ id. omega arith)

abbrev refund : RefundStatus → RefundRow
refund status = record (new_refund (codes "f1") (input 60) captured) {
  provider_refund_id = some (codes "p");
  status = status;
}

abbrev refunding : RefundStatus → Database
refunding status = record tables { refunds = refund status ∷ [] }

abbrev event : RefundEvent
event = record {
  store_id = codes "st";
  provider_refund_id = codes "p";
  status = ProviderStatus.failed;
  amount_minor = 60;
  currency = codes "USD";
}

sixty_within :
    (id : Text) → total holds_money id (refunding RefundStatus.pending).refunds ≤ amount_of id
unfolding total
sixty_within id = ground (arith, text_eq_iff (codes "t") id, text_eq_iff id (codes "t"))

apply_provider_event-IsWithin_example :
    IsWithin amount_of (apply_provider_event 2 event (refunding RefundStatus.pending)).1
unfolding text_eq
apply_provider_event-IsWithin_example =
    apply_provider_event-IsWithin amount_of 2 event (refunding RefundStatus.pending)
      ((λ e. refl), tt) ((refl, tt), sixty_within)

record_provider_result_reopens_example :
    let (answer, db) =
      record_provider_result 2
        (codes "f1")
        (codes "p")
        ResultStatus.pending
        (refunding RefundStatus.completed) in
    (answer ≡ inr tt)
    × (find (has_result (codes "f1")) db.refunds ≡ some (refund RefundStatus.pending))
    × (db.transactions ≡ captured ∷ [])
    × (decide_provider_refund_transition RefundStatus.completed ProviderStatus.pending ≡ conflict)
unfolding text_eq
record_provider_result_reopens_example =
    record_provider_result_reopens 2 (refunding RefundStatus.completed)
      {r = refund RefundStatus.completed} (codes "p") refl refl refl

claim_again_example :
    let (c, db) = claim (codes "f1") (input 60) tables in
    (c ≡ inr (claimed (codes "f1") captured (codes "cap") claim_new))
    × (db.refunds ≡ new_refund (codes "f1") (input 60) captured ∷ [])
    × (claim (codes "f2") (input 60) db
        ≡ (inr (claimed (codes "f1") captured (codes "cap") resume), db))
unfolding total text_eq
claim_again_example =
    claim_again (input 60) (codes "f1") (codes "f2") tables {t = captured}
      {capture_id = codes "cap"} refl refl refl refl (omega arith)

insert_refund_refundable_example :
    IsClaimed (
      insert_refund (codes "f2") (input 40) captured (codes "cap") (refunding RefundStatus.pending))
    ↔ (40
        ≤ (build_payment_refund_summary captured
            (of_transaction (codes "t") (refunding RefundStatus.pending).refunds)).refundable_minor)
unfolding total text_eq
insert_refund_refundable_example =
    insert_refund_refundable (codes "f2") (input 40) captured (codes "cap")
      (refunding RefundStatus.pending) (omega arith)
