-- ===== src/Payment/Inbox/Claims.antt =====
-- An event that is received more than once
-- (services/payment-service/src/payment-webhook-inbox.ts).
use kuajing.Base.{
  ℕ, ◌≡◌, refl, Bool, true, false, none, some, List, [], ◌∷◌, ◌++◌, inl, inr, find, arith,
  Bool-cases,
}
use kuajing.Base.Text.{Text, text_eq, text_eq_refl}
use kuajing.Payment.Inbox.{
  processing, ClaimDecision, claim_new, duplicate_processing, payload_conflict, payload_error,
  ClaimInput, EventRow, ClaimResult, decide_webhook_claim, key_of, new_event, claim_existing, claim,
}

key_of-new_event :
    (hash : Text → Text) (now : ℕ) (input : ClaimInput)
    → key_of input (new_event hash now input) ≡ true
key_of-new_event hash now input =
    ground
      (arith, text_eq_refl input.store_id, text_eq_refl input.provider, text_eq_refl input.event_id)

find-append :
    (p : EventRow → Bool) (rows : List EventRow) (r : EventRow)
    → find p rows ≡ none
    → p r ≡ true
    → find p (rows ++ (r ∷ [])) ≡ some r
find-append p [] r e f = rw f refl
find-append p (x ∷ rows) r e f = elim (Bool-cases (p x)) [
  | inl g ↦ ground arith
  | inr g ↦ let rest = find-append p rows r in ground (arith, rest)
]

abbrev duplicate : EventRow → ClaimDecision → ClaimResult
duplicate r decision = record {
  decision = decision;
  status = r.status;
  attempt_count = r.attempt_count;
}

module _ (hash : Text → Text) (now : ℕ) (input : ClaimInput) (rows : List EventRow)
    {r : EventRow} where
  pub claim-found :
      {d : ClaimDecision}
      → find (key_of input) rows ≡ some r
      → decide_webhook_claim (some (r.status, r.payload_hash)) (hash input.payload) ≡ d
      → claim hash now input rows ≡ claim_existing now input r d rows
  unfolding claim
  claim-found there e = rw (there, claim) (rw e refl)

claim-new :
    (hash : Text → Text) (now : ℕ) (input : ClaimInput) (rows : List EventRow)
    → find (key_of input) rows ≡ none
    → claim hash now input rows ≡ (
      inr (record { decision = claim_new; status = processing; attempt_count = 1 }),
      rows ++ (new_event hash now input ∷ []),
    )
unfolding claim
claim-new hash now input rows fresh = rw (fresh, claim) refl

module _ (hash : Text → Text) (now later : ℕ) (input : ClaimInput) (rows : List EventRow) where
  abbrev pub received : List EventRow
  received = rows ++ (new_event hash now input ∷ [])

  -- A new event that comes again with the same payload, while it is being processed, is a
  -- duplicate, and the rows stay as they are.
  pub claim_twice :
      find (key_of input) rows ≡ none
      → (claim hash now input rows ≡ (
        inr (record { decision = claim_new; status = processing; attempt_count = 1 }),
        received,
      ))
        × (claim hash later input received ≡ (
          inr (record { decision = duplicate_processing; status = processing; attempt_count = 1 }),
          received,
        ))
  unfolding decide_webhook_claim claim_existing
  claim_twice fresh = (
    claim-new hash now input rows fresh,
    claim-found hash later input received {r = new_event hash now input} {d = duplicate_processing}
        (find-append (key_of input) rows (new_event hash now input) fresh
          (key_of-new_event hash now input))
        (rw (text_eq_refl (hash input.payload)) refl),
  )

  -- An event that is new is claimed. When it comes again with the same payload while it is being
  -- processed, it is a duplicate; under a payload with another hash it is a payload conflict. The
  -- rows stay as they are in both cases, so that there is one row for the event.
  pub claim_duplicate :
      (other : ClaimInput)
      → find (key_of input) rows ≡ none
      → key_of other (new_event hash now input) ≡ true
      → find (key_of other) rows ≡ none
      → text_eq (hash input.payload) (hash other.payload) ≡ false
      → let (answer, rows') = claim hash now input rows in
        (answer ≡ inr (record { decision = claim_new; status = processing; attempt_count = 1 }))
        × (claim hash later input rows' ≡ (
          inr (record { decision = duplicate_processing; status = processing; attempt_count = 1 }),
          rows',
        ))
        × (claim hash later other rows' ≡ (inl payload_error, rows'))
  unfolding decide_webhook_claim claim_existing
  claim_duplicate other fresh same_key fresh_too differ = rw (claim-new hash now input rows fresh) (
    refl,
    (claim_twice fresh).1,
    claim-found hash later other received {r = new_event hash now input} {d = payload_conflict}
        (find-append (key_of other) rows (new_event hash now input) fresh_too same_key)
        (rw differ refl),
  )
