-- ===== src/Payment/Inbox/Marks.antt =====
-- What settles an event (services/payment-service/src/payment-webhook-inbox.ts, `markProcessed`,
-- `markFailed` and `markProcessingFailure`).
use kuajing.Base.{
  ℕ, ◌≡◌, refl, ap, Bool, true, false, none, some, List, [], ◌∷◌, inl, inr, find, map, arith,
  Bool-cases, All,
}
use kuajing.Base.Text.{Text, text_eq}
use kuajing.Payment.Inbox.{
  processing, processed, duplicate_processed, state_error, ClaimInput, EventRow,
  decide_webhook_claim, key_of, update_where, count, claim_existing, claim, open_key, is_processing,
  mark, mark_processed, mark_failed, mark_processing_failure,
}
use kuajing.Payment.Inbox.Claims.{claim-found}

-- No row under the key is being processed.
abbrev pub IsSettled : Text → Text → Text → List EventRow → Type 0
IsSettled store_id provider event_id rows =
    All (λ (r : EventRow). open_key store_id provider event_id r ≡ false) rows

module _ (p : EventRow → Bool) (change : EventRow → EventRow) where
  unchanged :
      (rows : List EventRow) → All (λ r. p r ≡ false) rows → map (update_where p change) rows ≡ rows
  unchanged [] h = refl
  unchanged (r ∷ rows) h = rw (h.0) (ap (λ rs. r ∷ rs) (unchanged rows h.1))

  uncounted : (rows : List EventRow) → All (λ r. p r ≡ false) rows → count p rows ≡ 0
  unfolding count
  uncounted [] h = refl
  uncounted (r ∷ rows) h = rw (h.0) (uncounted rows h.1)

module _ (store_id provider event_id : Text) (rows : List EventRow) where
  mark_refused :
      (change : EventRow → EventRow)
      → IsSettled store_id provider event_id rows
      → mark store_id provider event_id change rows ≡ (inl state_error, rows)
  unfolding mark
  mark_refused change h =
      rw (uncounted (open_key store_id provider event_id) change rows h, mark)
        (rw (unchanged (open_key store_id provider event_id) change rows h) refl)

  -- An event that is not being processed any more cannot be marked as processed or as failed, and no
  -- failure is counted for it: each of the three is refused and leaves the rows as they are.
  pub marks_refused :
      (now : ℕ) (error : Text) (task : EventRow)
      → IsSettled store_id provider event_id rows
      → task.store_id ≡ store_id
      → task.provider ≡ provider
      → task.event_id ≡ event_id
      → (mark_processed now store_id provider event_id rows ≡ (inl state_error, rows))
        × (mark_failed store_id provider event_id error rows ≡ (inl state_error, rows))
        × (mark_processing_failure now task error rows ≡ (inl state_error, rows))
  unfolding mark_processed mark_failed mark_processing_failure
  marks_refused now error task h a b c =
      (mark_refused _ h, mark_refused _ h, rw a (rw b (rw c (mark_refused _ h))))

find-mark :
    (input : ClaimInput) (change : EventRow → EventRow) (rows : List EventRow) {r : EventRow}
    → ((u : EventRow) → key_of input (change u) ≡ key_of input u)
    → find (key_of input) rows ≡ some r
    → is_processing r.status ≡ true
    → find
        (key_of input)
        (map (update_where (open_key input.store_id input.provider input.event_id) change) rows)
      ≡ some (change r)
find-mark input change [] same e p = cc
find-mark input change (x ∷ rows) {r} same e p = elim (Bool-cases (key_of input x)) [
  | inl f ↦ ground (arith, same x)
  | inr f ↦ let rest = find-mark input change rows {r = r} same in ground (arith, rest)
]

-- An event that is being processed, in one row, can be marked as processed. When it comes again with
-- the same payload it is then a duplicate of a processed event, and the rows stay as they are.
pub mark_processed_duplicate :
    (hash : Text → Text) (now later : ℕ) (input : ClaimInput) (rows : List EventRow) {r : EventRow}
    → find (key_of input) rows ≡ some r
    → r.status ≡ processing
    → count (open_key input.store_id input.provider input.event_id) rows ≡ 1
    → text_eq r.payload_hash (hash input.payload) ≡ true
    → let (answer, rows') = mark_processed now input.store_id input.provider input.event_id rows in
      (answer ≡ inr tt)
      × (claim hash later input rows' ≡ (
        inr (record {
          decision = duplicate_processed;
          status = processed;
          attempt_count = r.attempt_count;
        }),
        rows',
      ))
unfolding mark_processed mark decide_webhook_claim claim_existing
mark_processed_duplicate hash now later input rows {r} there is_open single same =
    rw (single, mark)
      (
        refl,
        claim-found hash later input _ {r = settled r} {d = duplicate_processed}
            (find-mark input settled rows (λ u. refl) there (rw is_open refl)) (rw same refl),
      )
  where
    settled : EventRow → EventRow
    settled u = record u { status = processed; processed_at = some now; last_error = none }
