-- ===== src/Payment/Refund/Claims.antt =====
-- A refund that is asked for again (services/payment-service/src/payment-refund.ts, `claim`).
use kuajing.Base.{
  ◌∙◌, ◌+◌, ◌≤◌, ◌≡◌, refl, ap, true, false, Option, none, some, ◌∷◌, inr, find, ltb, arith,
}
use kuajing.Base.Text.{Text, text_eq, text_eq_refl}
use kuajing.Payment.Refund.{
  TransactionRow, RefundRow, RefundInput, Database, RefundClaim, ClaimDecision, claim_new, resume,
  holds_money, total, can_refund, has_key, same_refund, new_refund, resume_refund, insert_refund,
  capture_of, claim_captured, claim,
}

abbrev pub claimed : Text → TransactionRow → Text → ClaimDecision → RefundClaim
claimed refund_id t capture_id decision = record {
  decision = decision;
  refund_id = refund_id;
  provider = t.provider;
  provider_capture_id = capture_id;
  provider_refund_id = none;
}

same_refund-new_refund :
    (id : Text) (input : RefundInput) (t : TransactionRow)
    → same_refund input (new_refund id input t) ≡ true
same_refund-new_refund id input t =
    ground (arith, text_eq_refl input.order_id, text_eq_refl input.currency)

has_key-new_refund :
    (id : Text) (input : RefundInput) (t : TransactionRow)
    → has_key input (new_refund id input t) ≡ true
has_key-new_refund id input t =
    ground (arith, text_eq_refl input.store_id, text_eq_refl input.idempotency_key)

abbrev pub with_refund : Text → RefundInput → TransactionRow → Database → Database
with_refund id input t db = record db { refunds = new_refund id input t ∷ db.refunds }

insert_accepted :
    (id : Text) (input : RefundInput) (t : TransactionRow) (c : Text) (db : Database)
    → input.amount_minor + total holds_money t.id db.refunds ≤ t.amount_minor
    → insert_refund id input t c db ≡ (inr (claimed id t c claim_new), with_refund id input t db)
unfolding insert_refund
insert_accepted id input t c db h = rw (fits, insert_refund) refl
  where
    fits : ltb t.amount_minor (input.amount_minor + total holds_money t.id db.refunds) ≡ false
    fits = ground arith

module _ (input : RefundInput) (id : Text) (db : Database) {t : TransactionRow}
    {capture_id : Text} where
  claim-captured :
      find (can_refund input) db.transactions ≡ some t
      → capture_of t ≡ some capture_id
      → text_eq t.currency input.currency ≡ true
      → {o : Option RefundRow} → find (has_key input) db.refunds ≡ o
      → claim id input db ≡ elim o [
        | some r ↦ (resume_refund input capture_id r, db)
        | none ↦ insert_refund id input t capture_id db
      ]
  unfolding claim claim_captured
  claim-captured there captured money {o} e =
      rw (there, claim) (rw captured (rw (money, claim_captured) (rw e refl)))

module _ (input : RefundInput) (first second : Text) (db : Database) {t : TransactionRow}
    {capture_id : Text} where
  -- A new refund of a captured payment, in its currency and within what is left of it, is claimed;
  -- who asks for it again with the same input resumes that refund, and no money is held twice.
  pub claim_again :
      find (can_refund input) db.transactions ≡ some t
      → capture_of t ≡ some capture_id
      → text_eq t.currency input.currency ≡ true
      → find (has_key input) db.refunds ≡ none
      → input.amount_minor + total holds_money t.id db.refunds ≤ t.amount_minor
      → let (c, db') = claim first input db in
        (c ≡ inr (claimed first t capture_id claim_new))
        × (db'.refunds ≡ new_refund first input t ∷ db.refunds)
        × (claim second input db' ≡ (inr (claimed first t capture_id resume), db'))
  unfolding resume_refund
  claim_again there captured money unused within =
      let found = claim-captured input first db {t = t} there captured money unused in
      rw (found ∙ insert_accepted first input t capture_id db within) (
        refl,
        refl,
        claim-captured input second (with_refund first input t db) {t = t} there captured money
              {o = some (new_refund first input t)}
              (ground (arith, has_key-new_refund first input t))
            ∙ ap (λ c. (c, with_refund first input t db)) resumed,
      )
    where
      resumed :
          resume_refund input capture_id (new_refund first input t)
          ≡ inr (claimed first t capture_id resume)
      resumed = rw (same_refund-new_refund first input t, resume_refund) refl
