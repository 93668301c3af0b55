-- ===== src/Payment/Transactions/Paid.antt =====
-- What `markPaid` does (services/payment-service/src/payment-transaction.ts).
use kuajing.Base.{
  ℕ, suc, zero, ◌≡◌, refl, ◌⊎◌, Bool, true, Option, none, some, List, [], ◌∷◌, map, ◌==◌, arith,
  inl, inr, Bool-cases,
}
use kuajing.Base.Text.{Text, text_eq_iff}
use kuajing.Base.Failure.{ok}
use kuajing.Payment.Transactions.{
  TransactionStatus, PaidInput, PaymentRow, is_payment, is_payable, pay_row, count, mark_paid,
  capture_taken,
}

-- The row with a number.
abbrev pub row_at : ℕ → List PaymentRow → Option PaymentRow
row_at n [] = none
row_at zero (r ∷ rows) = some r
row_at (suc n) (r ∷ rows) = row_at n rows

row_at-map :
    (f : PaymentRow → PaymentRow) (n : ℕ) (rows : List PaymentRow) {r : PaymentRow}
    → row_at n rows ≡ some r
    → row_at n (map f rows) ≡ some (f r)
row_at-map f n [] e = absurd (ground arith)
row_at-map f zero (x ∷ rows) e = ground arith
row_at-map f (suc n) (x ∷ rows) e = row_at-map f n rows e

-- A row that is counted has a number, and passes the test.
row_at-count :
    (p : PaymentRow → Bool) (rows : List PaymentRow)
    → count p rows ≡ 1
    → (n : ℕ) × (r : PaymentRow) × (row_at n rows ≡ some r) × (p r ≡ true)
unfolding count
row_at-count p [] h = absurd (ground arith)
row_at-count p (r ∷ rows) h = elim (Bool-cases (p r)) [
  | inl e ↦ (0, r, refl, e)
  | inr e ↦ let (n, s, f, t) = row_at-count p rows (ground arith) in (suc n, s, f, t)
]

-- The row of a payment of an order, not yet refunded, failed or cancelled.
abbrev pub IsPaymentOf : Text → Text → Text → Text → ℕ → Text → PaymentRow → Type 0
IsPaymentOf store_id provider provider_payment_id order_id amount_minor currency r =
    (r.store_id ≡ store_id)
    × (r.provider ≡ provider)
    × (r.provider_payment_id ≡ provider_payment_id)
    × (r.order_id ≡ order_id)
    × (r.amount_minor ≡ amount_minor)
    × (r.currency ≡ currency)
    × ((r.status ≡ TransactionStatus.created) ⊎ (r.status ≡ TransactionStatus.paid))

-- What becomes of the row: it is paid, with the event; a capture that it has stays, and one that it
-- has not is taken over.
abbrev pub IsMarked : Text → Option Text → PaymentRow → PaymentRow → Type 0
IsMarked event_id provider_capture_id before after =
    (after.status ≡ TransactionStatus.paid)
    × (after.latest_event_id ≡ some event_id)
    × (before.provider_capture_id ≡ none → after.provider_capture_id ≡ provider_capture_id)
    × ((c : Text) → before.provider_capture_id ≡ some c → after.provider_capture_id ≡ some c)
    × (after.id ≡ before.id)
    × (after.order_id ≡ before.order_id)
    × (after.amount_minor ≡ before.amount_minor)
    × (after.currency ≡ before.currency)

payable_cases :
    (status : TransactionStatus)
    → is_payable status ≡ true
    → (status ≡ TransactionStatus.created) ⊎ (status ≡ TransactionStatus.paid)
payable_cases status h = ground arith

module _ (now : ℕ) (input : PaidInput) where
  is_payment-IsPaymentOf :
      (r : PaymentRow)
      → is_payment input r ≡ true
      → IsPaymentOf input.store_id input.provider input.provider_payment_id input.order_id
          input.amount_minor input.currency r
  is_payment-IsPaymentOf r h = (
    ground (arith, text_eq_iff r.store_id input.store_id),
    ground (arith, text_eq_iff r.provider input.provider),
    ground (arith, text_eq_iff r.provider_payment_id input.provider_payment_id),
    ground (arith, text_eq_iff r.order_id input.order_id),
    ground arith,
    ground (arith, text_eq_iff r.currency input.currency),
    payable_cases r.status (ground arith),
  )

  pay_row-IsMarked :
      (r : PaymentRow)
      → is_payment input r ≡ true
      → IsMarked input.event_id input.provider_capture_id r (pay_row now input r)
  pay_row-IsMarked r h = rw h (refl, refl, λ e. rw e refl, λ c e. rw e refl, refl, refl, refl, refl)

  -- The transaction of a payment, and what it is after.
  abbrev pub IsPaid : List PaymentRow → List PaymentRow → Type 0
  IsPaid before after =
      (n : ℕ) × (r r' : PaymentRow) × (row_at n before ≡ some r)
      × (row_at n after ≡ some r')
      × IsPaymentOf input.store_id input.provider input.provider_payment_id input.order_id
          input.amount_minor input.currency r
      × IsMarked input.event_id input.provider_capture_id r r'

  pub mark_paid-IsPaid :
      (rows : List PaymentRow)
      → (mark_paid now input rows).0 ≡ ok tt
      → IsPaid rows (mark_paid now input rows).1
  unfolding mark_paid
  mark_paid-IsPaid rows h = elim (Bool-cases (capture_taken now input rows)) [
    | inl c ↦ absurd (ground arith)
    | inr c ↦ elim (Bool-cases (count (is_payment input) rows == 1)) [
      | inl e ↦
          let (n, r, f, t) = row_at-count (is_payment input) rows (ground arith) in
          rw (c, e, mark_paid)
            (
              n,
              r,
              pay_row now input r,
              f,
              row_at-map (pay_row now input) n rows f,
              is_payment-IsPaymentOf r t,
              pay_row-IsMarked r t,
            )
      | inr e ↦ absurd (ground arith)
    ]
  ]
