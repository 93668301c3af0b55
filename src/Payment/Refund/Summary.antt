-- ===== src/Payment/Refund/Summary.antt =====
-- The summary of an order's refunds (services/payment-service/src/payment-refund.ts,
-- `buildPaymentRefundSummary` and `getOrderSummary`).
use kuajing.Base.{
  ℕ, ◌+◌, ◌-◌, ◌≤◌, ◌≡◌, ◌↔◌, ◌⊎◌, inl, inr, refl, Bool, true, false, ◌&&◌, Option, none, some,
  List, [], ◌∷◌, arith, map, find, if◌then◌else◌, ltb, Bool-cases,
}
use kuajing.Base.Text.{Text, text_eq}
use kuajing.Payment.Refund.{
  RefundStatus, TransactionStatus, paid, partially_refunded, refunded, created, RefundInput,
  TransactionRow, RefundRow, RefundError, RefundClaim, Database, holds_money, is_completed, total,
  insert_refund,
}

-- A refund as the summary shows it, less the time of its creation.
pub record RefundLine : Type 0 where
  pub refund_id : Text
  pub provider_refund_id : Option Text
  pub amount_minor : ℕ
  pub currency : Text
  pub status : RefundStatus
  pub reason : Text
  pub actor_id : Text
  pub correlation_id : Text
  pub completed_at : Option ℕ

pub record Summary : Type 0 where
  pub order_id : Text
  pub payment_status : TransactionStatus
  pub provider : Text
  pub amount_minor : ℕ
  pub currency : Text
  pub refunded_minor : ℕ
  pub reserved_refund_minor : ℕ
  pub refundable_minor : ℕ
  pub refunds : List RefundLine

-- `refunds.filter((refund) => p(refund.status)).reduce((total, refund) => total + …, 0)`
sum_of : (RefundStatus → Bool) → ℕ → List RefundRow → ℕ
sum_of p so_far [] = so_far
sum_of p so_far (r ∷ rs) = sum_of p (if p r.status then so_far + r.amount_minor else so_far) rs

abbrev pub line_of : RefundRow → RefundLine
line_of r = record {
  refund_id = r.id;
  provider_refund_id = r.provider_refund_id;
  amount_minor = r.amount_minor;
  currency = r.currency;
  status = r.status;
  reason = r.reason;
  actor_id = r.actor_id;
  correlation_id = r.correlation_id;
  completed_at = r.completed_at;
}

-- `buildPaymentRefundSummary`; on the natural numbers `-` stops at 0, as `Math.max(0, …)` does.
pub build_payment_refund_summary : TransactionRow → List RefundRow → Summary
build_payment_refund_summary t refunds = record {
  order_id = t.order_id;
  payment_status = t.status;
  provider = t.provider;
  amount_minor = t.amount_minor;
  currency = t.currency;
  refunded_minor = sum_of is_completed 0 refunds;
  reserved_refund_minor = sum_of holds_money 0 refunds;
  refundable_minor = t.amount_minor - sum_of holds_money 0 refunds;
  refunds = map line_of refunds;
}

-- `WHERE payment_transaction_id = $1`
pub of_transaction : Text → List RefundRow → List RefundRow
of_transaction id [] = []
of_transaction id (r ∷ rs) =
    let rest = of_transaction id rs in
    if text_eq r.payment_transaction_id id then r ∷ rest else rest

-- `status IN ('paid', 'partially_refunded', 'refunded')`
abbrev is_shown : TransactionStatus → Bool
is_shown paid = true
is_shown partially_refunded = true
is_shown refunded = true
is_shown created = false
is_shown TransactionStatus.failed = false
is_shown TransactionStatus.cancelled = false

-- `getOrderSummary`; the refunds are listed from the newest on.
pub get_order_summary : Text → Text → Database → Option Summary
get_order_summary store_id order_id db =
    elim (find
      (λ (t : TransactionRow).
        text_eq t.store_id store_id && text_eq t.order_id order_id && is_shown t.status)
      db.transactions) [
        | none ↦ none
        | some t ↦ some (build_payment_refund_summary t (of_transaction t.id db.refunds))
      ]

sum_of-total :
    (p : RefundStatus → Bool) (so_far : ℕ) (id : Text) (rs : List RefundRow)
    → sum_of p so_far (of_transaction id rs) ≡ so_far + total p id rs
unfolding sum_of of_transaction total
sum_of-total p so_far id [] = omega arith
sum_of-total p so_far id (r ∷ rs) = elim (Bool-cases (text_eq r.payment_transaction_id id)) [
  | inr e ↦ rw e (sum_of-total p so_far id rs)
  | inl e ↦ elim (Bool-cases (p r.status)) [
    | inl f ↦ ground (arith, sum_of-total p (so_far + r.amount_minor) id rs)
    | inr f ↦ ground (arith, sum_of-total p so_far id rs)
  ]
]

abbrev pub IsClaimed : (RefundError ⊎ RefundClaim) × Database → Type 0
IsClaimed (s, db) = (c : RefundClaim) × (s ≡ inr c)

-- If the refunds of a transaction are within its amount, the summary of the transaction names as
-- refundable exactly the amounts that a new refund may claim.
pub insert_refund_refundable :
    (refund_id : Text) (input : RefundInput) (t : TransactionRow) (capture_id : Text)
    (db : Database)
    → total holds_money t.id db.refunds ≤ t.amount_minor
    → IsClaimed (insert_refund refund_id input t capture_id db) ↔ (
        input.amount_minor
        ≤ (build_payment_refund_summary t (of_transaction t.id db.refunds)).refundable_minor)
unfolding insert_refund build_payment_refund_summary
insert_refund_refundable refund_id input t capture_id db within =
    elim (Bool-cases
      (ltb t.amount_minor (input.amount_minor + total holds_money t.id db.refunds))) [
        | inl e ↦
            rw (e, sum_of-total holds_money 0 t.id db.refunds)
              (λ h. absurd (refused h), λ h. absurd (ground arith))
        | inr e ↦
            rw (e, sum_of-total holds_money 0 t.id db.refunds) (λ h. ground arith, λ h. (_, refl))
      ]
  where
    refused : {e : RefundError} → (c : RefundClaim) × (inl e ≡ inr c) → ⊥
    refused (c, e) = cc
