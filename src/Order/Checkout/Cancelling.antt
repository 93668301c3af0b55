-- ===== src/Order/Checkout/Cancelling.antt =====
-- Which bookings `cancelInventory` closes (services/order-service/src/main.ts), on any inventory
-- service that keeps the laws of the ledger.
use mathlib.Core.Option
use kuajing.Base.{
  ℕ, ◌≡◌, ◌≢◌, refl, subst, Bool, true, false, ◌||◌, ◌&&◌, Option, none, some, List, [], ◌∷◌, ◌++◌,
  arith, inl, inr, Bool-cases, ◌==◌,
}
use kuajing.Base.Decimal.{show-injective}
use kuajing.Base.Text.{Text, text_eq, text_eq_iff, text_neq, codes}
use kuajing.Inventory.Types.{cancelled, ReservationResult}
use kuajing.Inventory.Contract.{Booking, settle, is_open, InventoryService, IsLedger}
use kuajing.Order.Service.{answered, Network, cancelling}
use kuajing.Order.Checkout.{line_key, is_reserved, cancel_inventory}

pub settled_closed : (o : Option Booking) → is_open (Option.map (settle cancelled) o) ≡ false
settled_closed none = refl
settled_closed (some b) = ground arith

append-injective : (t s u : Text) → t ++ s ≡ t ++ u → s ≡ u
append-injective [] s u e = e
append-injective (c ∷ t) s u e = append-injective t s u cc

pub line_key-injective :
    (order_key : Text) (i j : ℕ) → line_key order_key i ≡ line_key order_key j → i ≡ j
line_key-injective order_key i j e =
    show-injective i j
      (append-injective (codes ":inventory:") _ _ (append-injective order_key _ _ e))

pub same : (i j : ℕ) → i == j ≡ true → i ≡ j
same i j h = ground arith

pub apart : (i j : ℕ) → i == j ≡ false → i ≢ j
apart i j h e = ground arith

-- A reservation of the key, still to be cancelled, is on the list.
abbrev pub among : Text → List ReservationResult → Bool
among k [] = false
among k (r ∷ rs) = text_eq r.idempotency_key k && is_reserved r.status || among k rs

pub among-append :
    (k : Text) (rs : List ReservationResult) (r : ReservationResult)
    → among k (rs ++ (r ∷ []))
      ≡ (among k rs || (text_eq r.idempotency_key k && is_reserved r.status))
among-append k [] r = ground arith
among-append k (x ∷ rs) r = ground (arith, among-append k rs r)

module _ (s : InventoryService) (laws : IsLedger s) (net : Network)
    (cancels : (k : Text) → net cancelling k ≡ answered) where
  open laws use {try_new, try_refused, try_others, cancel_settles, cancel_others}

  abbrev pub Closed : Text → s.Store → Type 0
  Closed k st = is_open (s.booking k st) ≡ false

  cancel-Closed : (j k : Text) (st : s.Store) → Closed k st → Closed k (s.cancel j st).1
  cancel-Closed j k st h = elim (Bool-cases (text_eq j k)) [
    | inl e ↦
        subst (λ i. Closed i (s.cancel j st).1) ((text_eq_iff j k).0 e)
          (rw (cancel_settles j st) (settled_closed (s.booking j st)))
    | inr e ↦ rw (cancel_others j k st (text_neq j k e)) h
  ]

  pub cancel_inventory-Closed :
      (rs : List ReservationResult) (k : Text) (st : s.Store)
      → Closed k st
      → Closed k (cancel_inventory s net rs st)
  unfolding cancel_inventory
  cancel_inventory-Closed [] k st h = h
  cancel_inventory-Closed (r ∷ rs) k st h = elim (Bool-cases (is_reserved r.status)) [
    | inl e ↦ rw e (
        rw (cancels r.idempotency_key)
          (cancel_inventory-Closed rs k _ (cancel-Closed r.idempotency_key k st h)))
    | inr e ↦ rw e (cancel_inventory-Closed rs k st h)
  ]

  -- A booking that is to be cancelled is.
  pub cancel_inventory-among :
      (rs : List ReservationResult) (k : Text) (st : s.Store)
      → among k rs ≡ true
      → Closed k (cancel_inventory s net rs st)
  unfolding cancel_inventory
  cancel_inventory-among [] k st h = cc
  cancel_inventory-among (r ∷ rs) k st h = elim (Bool-cases (is_reserved r.status)) [
    | inl e ↦ rw e (
        rw (cancels r.idempotency_key) (elim (Bool-cases (text_eq r.idempotency_key k)) [
          | inl f ↦ cancel_inventory-Closed rs k _ (
              subst (λ i. Closed i (s.cancel r.idempotency_key st).1)
                ((text_eq_iff r.idempotency_key k).0 f)
                (rw (cancel_settles r.idempotency_key st)
                  (settled_closed (s.booking r.idempotency_key st))))
          | inr f ↦ cancel_inventory-among rs k _ (ground arith)
        ]))
    | inr e ↦ rw e (cancel_inventory-among rs k st (ground arith))
  ]
