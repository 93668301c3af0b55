-- ===== src/Payment/Inbox/Lease.antt =====
-- The events that the webhook worker claims, and for how long
-- (services/payment-service/src/payment-webhook-inbox.ts, `claimDue`).
use kuajing.Base.{
  ℕ, ◌+◌, ◌≤◌, ◌<◌, ◌≡◌, Bool, true, false, ◌&&◌, ◌||◌, List, [], ◌∷◌, if◌then◌else◌, map, take,
  leb, length, All, arith, inl, inr, Bool-cases,
}
use kuajing.Base.Sort.{pick, sort_by, pick-All, sort-All, take-All, length-take}
use kuajing.Payment.Inbox.{EventRow, has_key, is_processing}

-- `status = 'processing' AND next_attempt_at <= now()`
abbrev pub is_due : ℕ → EventRow → Bool
is_due now r = is_processing r.status && leb r.next_attempt_at now

-- `ORDER BY next_attempt_at, received_at LIMIT $1`; the rows are listed as they were received.
pub due : ℕ → ℕ → List EventRow → List EventRow
due limit now rows =
    take limit (sort_by (λ (r : EventRow). r.next_attempt_at) (pick (is_due now) rows))

-- Whether the key of a row is one of those claimed.
abbrev pub among : EventRow → List EventRow → Bool
among r [] = false
among r (c ∷ cs) = has_key c.store_id c.provider c.event_id r || among r cs

abbrev pub lease : List EventRow → ℕ → EventRow → EventRow
lease claimed until r = if among r claimed then record r { next_attempt_at = until } else r

-- `claimDue`: the events that are claimed, as they stood, and the rows with their lease.
pub claim_due : ℕ → ℕ → ℕ → List EventRow → List EventRow × List EventRow
claim_due limit lease_ms now rows =
    let claimed = due limit now rows in (claimed, map (lease claimed (now + lease_ms)) rows)

module _ (limit lease_ms now later : ℕ) (claimed : List EventRow) where
  leased :
      (rows : List EventRow)
      → later < now + lease_ms
      → All
          (λ (r : EventRow). among r claimed ≡ false)
          (pick (is_due later) (map (lease claimed (now + lease_ms)) rows))
  unfolding pick
  leased [] h = tt
  leased (r ∷ rows) h = elim (Bool-cases (among r claimed)) [
    | inl e ↦
        rw e (elim (Bool-cases (is_due later (record r { next_attempt_at = now + lease_ms }))) [
          | inl f ↦ absurd (ground arith)
          | inr f ↦ rw f (leased rows h)
        ])
    | inr e ↦ rw e (elim (Bool-cases (is_due later r)) [
      | inl f ↦ rw f (e, leased rows h)
      | inr f ↦ rw f (leased rows h)
    ])
  ]

-- A claim takes at most as many events as its limit, and each of them is being processed and due.
-- Until the lease ends, the next claim takes none of them.
pub claim_due_leased :
    (limit lease_ms now later : ℕ) (rows : List EventRow)
    → later < now + lease_ms
    → let (claimed, rows') = claim_due limit lease_ms now rows in
      (length claimed ≤ limit)
      × All (λ (r : EventRow). is_due now r ≡ true) claimed
      × All (λ (r : EventRow). among r claimed ≡ false) (claim_due limit lease_ms later rows').0
unfolding claim_due due
claim_due_leased limit lease_ms now later rows early = (
  length-take limit _,
  chosen (λ r. is_due now r ≡ true) _ (pick-All (is_due now) rows),
  chosen (λ r. among r (due limit now rows) ≡ false) _
      (leased limit lease_ms now later (due limit now rows) rows early),
)
  where
    chosen :
        (P : EventRow → Type 0) (rs : List EventRow)
        → All P rs
        → All P (take limit (sort_by (λ (r : EventRow). r.next_attempt_at) rs))
    chosen P rs h = take-All P limit _ (sort-All P (λ r. r.next_attempt_at) rs h)
