-- ===== src/Payment/Refund/Settle/Within.antt =====
-- Refunds never hold more than was captured (services/payment-service/src/payment-refund.ts).
use kuajing.Base.{
  subst, ℕ, ◌+◌, ◌≤◌, ◌≡◌, refl, Bool, false, some, List, [], ◌∷◌, ◌⊎◌, inl, inr, find, map, ltb,
  All, arith, Bool-cases, Option-cases,
}
use kuajing.Base.Text.{Text, text_eq, text_eq_iff}
use kuajing.Payment.Refund.{
  ProviderStatus, RefundError, ClaimDecision, TransactionRow, RefundRow, RefundInput, RefundClaim,
  Database, holds_money, total, can_refund, has_key, new_refund, insert_refund, capture_of,
  claim_captured, claim,
}
use kuajing.Payment.Refund.Settle.{
  RefundResult, restatus, recalculate, ResultStatus, has_result, with_result, after_result,
  id_taken, record_provider_result, Provider, shown, answered, refund_claimed, refund_decided,
  on_claim, process_payment_refund,
}

abbrev pub IsSameRefund : RefundRow → RefundRow → Type 0
IsSameRefund r u =
    (u.payment_transaction_id ≡ r.payment_transaction_id)
    × (u.amount_minor ≡ r.amount_minor)
    × (holds_money r.status ≡ false → holds_money u.status ≡ false)

pub total-map :
    (id : Text) (f : RefundRow → RefundRow) (rs : List RefundRow)
    → All (λ r. IsSameRefund r (f r)) rs
    → total holds_money id (map f rs) ≤ total holds_money id rs
unfolding total
total-map id f [] h = omega arith
total-map id f (r ∷ rs) ((t, a, s), hs) = ground (arith, total-map id f rs hs)

pub All-every :
    {P : RefundRow → Type 0} → ((r : RefundRow) → P r) → (rs : List RefundRow) → All P rs
All-every h [] = tt
All-every h (r ∷ rs) = (h r, All-every h rs)

-- The id of a transaction fixes its amount, as the primary key does, and the refunds of a
-- transaction that are not failed add up to no more than its amount.
abbrev pub IsWithin : (Text → ℕ) → Database → Type 0
IsWithin amount_of db =
    All (λ (t : TransactionRow). t.amount_minor ≡ amount_of t.id) db.transactions
    × ((id : Text) → total holds_money id db.refunds ≤ amount_of id)

module _ (amount_of : Text → ℕ) where
  find-amount :
      (p : TransactionRow → Bool) (ts : List TransactionRow) {t : TransactionRow}
      → All (λ (t : TransactionRow). t.amount_minor ≡ amount_of t.id) ts
      → find p ts ≡ some t
      → t.amount_minor ≡ amount_of t.id
  find-amount p [] h e = cc
  find-amount p (x ∷ ts) {t} h e = elim (Bool-cases (p x)) [
    | inl f ↦ ground arith
    | inr f ↦ find-amount p ts {t = t} h.1 (ground arith)
  ]

  pub recalculate-IsWithin :
      (id : Text) (db : Database) → IsWithin amount_of db → IsWithin amount_of (recalculate id db)
  unfolding recalculate
  recalculate-IsWithin id db h = (kept db.transactions h.0, h.1)
    where
      kept :
          (ts : List TransactionRow)
          → All (λ (t : TransactionRow). t.amount_minor ≡ amount_of t.id) ts
          → All
              (λ (t : TransactionRow). t.amount_minor ≡ amount_of t.id)
              (map (restatus id db.refunds) ts)
      kept [] h = tt
      kept (t ∷ ts) h = elim (Bool-cases (text_eq t.id id)) [
        | inl e ↦ rw e (h.0, kept ts h.1)
        | inr e ↦ rw e (h.0, kept ts h.1)
      ]

  insert-IsWithin :
      (refund_id : Text) (input : RefundInput) (t : TransactionRow) (c : Text) (db : Database)
      → t.amount_minor ≡ amount_of t.id
      → IsWithin amount_of db
      → IsWithin amount_of (insert_refund refund_id input t c db).1
  unfolding insert_refund total
  insert-IsWithin refund_id input t c db a h =
      elim (Bool-cases
        (ltb t.amount_minor (input.amount_minor + total holds_money t.id db.refunds))) [
          | inl e ↦ rw e h
          | inr e ↦ rw e (h.0, λ id. counted id e)
        ]
    where
      below :
          ltb t.amount_minor (input.amount_minor + total holds_money t.id db.refunds) ≡ false
          → input.amount_minor + total holds_money t.id db.refunds ≤ amount_of t.id
      below e = ground arith

      counted :
          (id : Text)
          → ltb t.amount_minor (input.amount_minor + total holds_money t.id db.refunds) ≡ false
          → total holds_money id (new_refund refund_id input t ∷ db.refunds) ≤ amount_of id
      counted id e = elim (Bool-cases (text_eq t.id id)) [
        | inl f ↦ rw f (
            subst (λ i. input.amount_minor + total holds_money i db.refunds ≤ amount_of i)
              ((text_eq_iff t.id id).0 f) (below e))
        | inr f ↦ rw f (h.1 id)
      ]

  captured-IsWithin :
      (refund_id : Text) (input : RefundInput) (t : TransactionRow) (c : Text) (db : Database)
      → t.amount_minor ≡ amount_of t.id
      → IsWithin amount_of db
      → IsWithin amount_of (claim_captured refund_id input t c db).1
  unfolding claim_captured
  captured-IsWithin refund_id input t c db a h =
      elim (Bool-cases (text_eq t.currency input.currency)) [
        | inr e ↦ rw e h
        | inl e ↦ rw e (elim (Option-cases (find (has_key input) db.refunds)) [
          | inl f ↦ rw f (insert-IsWithin refund_id input t c db a h)
          | inr (r, f) ↦ rw f h
        ])
      ]

  -- A claim keeps the refunds of every transaction within its amount.
  pub claim-IsWithin :
      (refund_id : Text) (input : RefundInput) (db : Database)
      → IsWithin amount_of db
      → IsWithin amount_of (claim refund_id input db).1
  unfolding claim
  claim-IsWithin refund_id input db h =
      elim (Option-cases (find (can_refund input) db.transactions)) [
        | inl e ↦ rw (e, claim) h
        | inr (t, e) ↦
            rw (e, claim)
              (elim (Option-cases (capture_of t)) [
                | inl f ↦ rw f h
                | inr (c, f) ↦ rw f (
                    captured-IsWithin refund_id input t c db
                      (find-amount (can_refund input) db.transactions h.0 e) h)
              ])
      ]

  result-IsWithin :
      (now : ℕ) (id pid : Text) (status : ResultStatus) (db : Database)
      → IsWithin amount_of db
      → IsWithin amount_of (record_provider_result now id pid status db).1
  unfolding record_provider_result
  result-IsWithin now id pid status db h = elim (Option-cases (find (has_result id) db.refunds)) [
    | inl e ↦ rw (e, record_provider_result) h
    | inr (r, e) ↦
        rw (e, record_provider_result)
          (elim (Bool-cases (id_taken r pid db.refunds)) [
            | inl f ↦ rw f h
            | inr f ↦ rw f (settled status r.payment_transaction_id)
          ])
  ]
    where
      same :
          (status : ResultStatus) (r : RefundRow) → IsSameRefund r (with_result now id pid status r)
      same status r = elim (Bool-cases (has_result id r)) [
        | inl e ↦ rw e (refl, refl, λ f. ground arith)
        | inr e ↦ rw e (refl, refl, λ f. f)
      ]

      recorded : ResultStatus → Database
      recorded status = record db { refunds = map (with_result now id pid status) db.refunds }

      recorded-IsWithin : (status : ResultStatus) → IsWithin amount_of (recorded status)
      recorded-IsWithin status = (
        h.0,
        λ i. omega (
          arith,
          h.1 i,
          total-map i (with_result now id pid status) db.refunds
              (All-every (same status) db.refunds),
        ),
      )

      settled :
          (status : ResultStatus) (id : Text)
          → IsWithin amount_of (after_result status id (recorded status))
      settled ResultStatus.pending id = recorded-IsWithin ResultStatus.pending
      settled ResultStatus.completed id =
          recalculate-IsWithin id (recorded ResultStatus.completed)
            (recorded-IsWithin ResultStatus.completed)

  shown-IsWithin :
      (r : RefundResult) (s : (RefundError ⊎ Unit {0}) × Database)
      → IsWithin amount_of s.1
      → IsWithin amount_of (shown r s).1
  shown-IsWithin r (inl e, db) h = h
  shown-IsWithin r (inr u, db) h = h

  answered-IsWithin :
      (now : ℕ) (c : RefundClaim) (id : Text) (status : ProviderStatus) (db : Database)
      → IsWithin amount_of db
      → IsWithin amount_of (answered now c id status db).1
  unfolding answered
  answered-IsWithin now c id ProviderStatus.failed db h = h
  answered-IsWithin now c id ProviderStatus.completed db h =
      shown-IsWithin _ _ (result-IsWithin now c.refund_id id ResultStatus.completed db h)
  answered-IsWithin now c id ProviderStatus.pending db h =
      shown-IsWithin _ _ (result-IsWithin now c.refund_id id ResultStatus.pending db h)

  refund_claimed-IsWithin :
      (now : ℕ) (provider : Provider) (input : RefundInput) (c : RefundClaim) (db : Database)
      → IsWithin amount_of db
      → IsWithin amount_of (refund_claimed now provider input c db).1
  unfolding refund_claimed
  refund_claimed-IsWithin now provider input c db h =
      elim (Bool-cases (text_eq c.provider provider.name)) [
        | inl e ↦ rw e (answered-IsWithin now c _ _ db h)
        | inr e ↦ rw e h
      ]

  on_claim-IsWithin :
      (now : ℕ) (provider : Provider) (input : RefundInput)
      (s : (RefundError ⊎ RefundClaim) × Database)
      → IsWithin amount_of s.1
      → IsWithin amount_of (on_claim now provider input s).1
  unfolding on_claim refund_decided
  on_claim-IsWithin now provider input (inl e, db) h = h
  on_claim-IsWithin now provider input (inr c, db) h = decided c.decision
    where
      decided :
          (d : ClaimDecision) → IsWithin amount_of (refund_decided now provider input d c db).1
      decided ClaimDecision.completed = h
      decided ClaimDecision.resume = refund_claimed-IsWithin now provider input c db h
      decided ClaimDecision.claim_new = refund_claimed-IsWithin now provider input c db h

  -- If the id of a transaction fixes its amount and the refunds of every transaction that are not
  -- failed add up to no more than its amount, then this is still so when a refund was processed,
  -- whatever was asked for and whatever the provider answered.
  pub process_payment_refund-IsWithin :
      (now : ℕ) (refund_id : Text) (provider : Provider) (input : RefundInput) (db : Database)
      → IsWithin amount_of db
      → IsWithin amount_of (process_payment_refund now refund_id provider input db).1
  unfolding process_payment_refund
  process_payment_refund-IsWithin now refund_id provider input db h =
      on_claim-IsWithin now provider input (claim refund_id input db)
        (claim-IsWithin refund_id input db h)
