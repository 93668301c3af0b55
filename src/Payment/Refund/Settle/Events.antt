-- ===== src/Payment/Refund/Settle/Events.antt =====
-- The provider's events for a refund (services/payment-service/src/payment-refund.ts,
-- `applyProviderEvent`), next to `recordProviderResult`.
use kuajing.Base.{
  ◌≢◌, ℕ, ◌≡◌, refl, Bool, true, false, ◌&&◌, some, List, [], ◌∷◌, inl, inr, find, map, ◌==◌, All,
  arith, Bool-cases, Option-cases,
}
use kuajing.Base.Text.{Text, text_eq}
use kuajing.Payment.Refund.{
  ProviderStatus, RefundStatus, RefundRow, Database, Decision, apply, conflict, holds_money,
  decide_provider_refund_transition,
}
use kuajing.Payment.Refund.Settle.{
  ResultStatus, has_result, with_result, id_taken, record_provider_result, RefundEvent, has_event,
  with_event, apply_event, apply_provider_event,
}
use kuajing.Payment.Refund.Settle.Within.{IsWithin, IsSameRefund, total-map, recalculate-IsWithin}

apply_holds :
    (current : RefundStatus) (incoming : ProviderStatus)
    → decide_provider_refund_transition current incoming ≡ apply
    → holds_money current ≡ true
unfolding decide_provider_refund_transition
apply_holds RefundStatus.processing s e = refl
apply_holds RefundStatus.pending s e = refl
apply_holds RefundStatus.completed s e = refl
apply_holds RefundStatus.failed ProviderStatus.pending e = cc
apply_holds RefundStatus.failed ProviderStatus.completed e = cc
apply_holds RefundStatus.failed ProviderStatus.failed e = cc

-- Only one refund is named by the event.
abbrev pub IsSingle : RefundEvent → Database → Type 0
IsSingle e db =
    All (λ (r : RefundRow). has_event e r ≡ true → find (has_event e) db.refunds ≡ some r)
      db.refunds

abbrev pub is_final : RefundStatus → Bool
is_final RefundStatus.completed = true
is_final RefundStatus.failed = true
is_final RefundStatus.processing = false
is_final RefundStatus.pending = false

no_apply :
    (s : RefundStatus) (p : ProviderStatus)
    → is_final s ≡ true
    → decide_provider_refund_transition s p ≢ apply
unfolding decide_provider_refund_transition
no_apply RefundStatus.processing p f = cc
no_apply RefundStatus.pending p f = cc
no_apply RefundStatus.completed ProviderStatus.pending f = λ g. cc
no_apply RefundStatus.completed ProviderStatus.completed f = λ g. cc
no_apply RefundStatus.completed ProviderStatus.failed f = λ g. cc
no_apply RefundStatus.failed ProviderStatus.pending f = λ g. cc
no_apply RefundStatus.failed ProviderStatus.completed f = λ g. cc
no_apply RefundStatus.failed ProviderStatus.failed f = λ g. cc

module _ (amount_of : Text → ℕ) (now : ℕ) (e : RefundEvent) (db : Database) where
  applied-IsWithin :
      (r : RefundRow)
      → find (has_event e) db.refunds ≡ some r
      → holds_money r.status ≡ true
      → IsSingle e db
      → IsWithin amount_of db
      → IsWithin amount_of (record db { refunds = map (with_event now e) db.refunds })
  applied-IsWithin r there holds single h = (
    h.0,
    λ i. omega (arith, h.1 i, total-map i (with_event now e) db.refunds (same db.refunds single)),
  )
    where
      same :
          (rs : List RefundRow)
          → All
              (λ (u : RefundRow). has_event e u ≡ true → find (has_event e) db.refunds ≡ some u)
              rs
          → All (λ u. IsSameRefund u (with_event now e u)) rs
      same [] h = tt
      same (u ∷ rs) (one, h) = elim (Bool-cases (has_event e u)) [
        | inl f ↦ rw f ((refl, refl, λ g. let one_row = one f in cc), same rs h)
        | inr f ↦ rw f ((refl, refl, λ g. g), same rs h)
      ]

  kept :
      (r : RefundRow)
      → find (has_event e) db.refunds ≡ some r
      → IsSingle e db
      → IsWithin amount_of db
      → (d : Decision) → decide_provider_refund_transition r.status e.status ≡ d
      → IsWithin amount_of (apply_event now e r db).1
  unfolding apply_event
  kept r there single h Decision.replay f = rw (f, apply_event) h
  kept r there single h Decision.conflict f = rw (f, apply_event) h
  kept r there single h Decision.apply f =
      rw (f, apply_event)
        (recalculate-IsWithin amount_of r.payment_transaction_id _
          (applied-IsWithin r there (apply_holds r.status e.status f) single h))

  -- If the event names one refund, the refunds of every transaction stay within its amount
  -- whatever the event reports.
  pub apply_provider_event-IsWithin :
      IsSingle e db → IsWithin amount_of db → IsWithin amount_of (apply_provider_event now e db).1
  unfolding apply_provider_event
  apply_provider_event-IsWithin single h = elim (Option-cases (find (has_event e) db.refunds)) [
    | inl f ↦ rw (f, apply_provider_event) h
    | inr (r, f) ↦
        rw (f, apply_provider_event)
          (elim (Bool-cases (r.amount_minor == e.amount_minor && text_eq r.currency e.currency)) [
            | inl g ↦
                rw g (kept r f single h (decide_provider_refund_transition r.status e.status) refl)
            | inr g ↦ rw g h
          ])
  ]

final_stays :
    (now : ℕ) (e : RefundEvent) (r : RefundRow) (db : Database)
    → is_final r.status ≡ true
    → (d : Decision) → decide_provider_refund_transition r.status e.status ≡ d
    → (apply_event now e r db).1 ≡ db
unfolding apply_event
final_stays now e r db f Decision.replay g = rw (g, apply_event) refl
final_stays now e r db f Decision.conflict g = rw (g, apply_event) refl
final_stays now e r db f Decision.apply g = absurd (no_apply r.status e.status f g)

module _ (now : ℕ) (db : Database) {r : RefundRow} where
  -- An event for a refund that is completed or failed changes nothing.
  pub apply_provider_event_final :
      (e : RefundEvent)
      → find (has_event e) db.refunds ≡ some r
      → is_final r.status ≡ true
      → (apply_provider_event now e db).1 ≡ db
  unfolding apply_provider_event
  apply_provider_event_final e there f =
      rw (there, apply_provider_event)
        (elim (Bool-cases (r.amount_minor == e.amount_minor && text_eq r.currency e.currency)) [
          | inl g ↦
              rw g (
                final_stays now e r db f (decide_provider_refund_transition r.status e.status) refl)
          | inr g ↦ rw g refl
        ])

  -- A result that says "pending", under an id that no other refund has, reopens a refund that an
  -- event had completed, and leaves the transactions as they are; the same step is a conflict when an
  -- event asks for it.
  pub record_provider_result_reopens :
      (provider_refund_id : Text)
      → find (has_result r.id) db.refunds ≡ some r
      → r.status ≡ RefundStatus.completed
      → id_taken r provider_refund_id db.refunds ≡ false
      → let (answer, db') =
          record_provider_result now r.id provider_refund_id ResultStatus.pending db in
        (answer ≡ inr tt)
        × (find (has_result r.id) db'.refunds
            ≡ some (record r {
              provider_refund_id = some provider_refund_id;
              status = RefundStatus.pending;
            }))
        × (db'.transactions ≡ db.transactions)
        × (decide_provider_refund_transition r.status ProviderStatus.pending ≡ conflict)
  unfolding record_provider_result decide_provider_refund_transition
  record_provider_result_reopens provider_refund_id there done own =
      rw (there, record_provider_result)
        (rw own (refl, reopened db.refunds there, refl, rw done refl))
    where
      reopened :
          (rs : List RefundRow)
          → find (has_result r.id) rs ≡ some r
          → find
              (has_result r.id)
              (map (with_result now r.id provider_refund_id ResultStatus.pending) rs)
            ≡ some (record r {
              provider_refund_id = some provider_refund_id;
              status = RefundStatus.pending;
            })
      reopened [] f = cc
      reopened (x ∷ rs) f = elim (Bool-cases (has_result r.id x)) [
        | inl g ↦ ground arith
        | inr g ↦ rw g (let rest = reopened rs in ground arith)
      ]
