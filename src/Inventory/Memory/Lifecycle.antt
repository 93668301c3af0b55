-- ===== src/Inventory/Memory/Lifecycle.antt =====
-- The life of a reservation of `InventoryMemoryStore` over any calls
-- (services/inventory-service/src/main.ts).
use mathlib.Core.Option
use kuajing.Base.{
  ◌≡◌, ◌⊎◌, refl, sym, ap, ◌∙◌, subst, Option, none, some, List, [], ◌∷◌, find, arith, inl, inr,
  Bool-cases, Option-cases,
}
use kuajing.Base.Text.{Text, text_eq, text_eq_iff, text_neq}
use kuajing.Base.Dict.{Dict, get, values}
use kuajing.Inventory.Types.{
  ReservationStatus, reserved, confirmed, cancelled, ReservationInput, Adjustment, Config, Fresh,
}
use kuajing.Inventory.Contract.{Booking, settle}
use kuajing.Inventory.Memory.{Reservation, Store, try_reserve, cancel, ensure_item}
use kuajing.Inventory.Memory.Admin.{
  release_reservation, release_found, adjust_item, adjust_found, audit,
}
use kuajing.Inventory.Memory.Ledger.{ensure_item-reservations}
use kuajing.Inventory.Memory.Bookings.{
  booking, booking_of, booking-try_reserve_other, settled_at, booking-confirm, booking-cancel,
  booking-try_reserve_used,
}
use kuajing.Inventory.Memory.Sound.{
  Call, reserving, confirming, cancelling, releasing, adjusting, perform, perform_all,
}

-- What may become of a booking: none is lost, none changes its quantity, and only an open one
-- changes its status.
abbrev pub Follows : Option Booking → Option Booking → Type 0
Follows none after = Unit
Follows (some b) none = ⊥
Follows (some b) (some c) = (c.qty ≡ b.qty) × ((c.status ≡ b.status) ⊎ (b.status ≡ reserved))

Follows-refl : (o : Option Booking) → Follows o o
Follows-refl none = tt
Follows-refl (some b) = (refl, inl refl)

Follows-trans : (o p q : Option Booking) → Follows o p → Follows p q → Follows o q
Follows-trans none p q h k = tt
Follows-trans (some b) none q h k = absurd h
Follows-trans (some b) (some c) none h k = absurd k
Follows-trans (some b) (some c) (some d) (e, f) (g, k) = (g ∙ e, ground arith)

Follows-settle :
    (status : ReservationStatus) (o : Option Booking) → Follows o (Option.map (settle status) o)
Follows-settle status none = tt
Follows-settle status (some b) = ground arith

Follows-settled_at :
    (status : ReservationStatus) (j k : Text) (st : Store)
    → Follows (booking k st) (settled_at status j k st)
Follows-settled_at status j k st = elim (Bool-cases (text_eq j k)) [
  | inl e ↦ rw e (rw ((text_eq_iff j k).0 e) (Follows-settle status (booking k st)))
  | inr e ↦ rw e (Follows-refl (booking k st))
]

same : (o p : Option Booking) → p ≡ o → Follows o p
same o p e = rw e (Follows-refl o)

module _ (cfg : Config) (k : Text) where
  try_reserve-Follows :
      (fresh : Fresh) (input : ReservationInput) (st : Store)
      → Follows (booking k st) (booking k (try_reserve cfg fresh input st).1)
  try_reserve-Follows fresh input st = elim (Option-cases (booking input.idempotency_key st)) [
    | inr (b, used) ↦ same _ _ (booking-try_reserve_used cfg fresh input st used k)
    | inl unused ↦ elim (Bool-cases (text_eq input.idempotency_key k)) [
      | inl e ↦
          subst (λ (o : Option Booking). Follows o (booking k (try_reserve cfg fresh input st).1))
            (sym
              (subst (λ j. booking j st ≡ none) ((text_eq_iff input.idempotency_key k).0 e) unused))
            tt
      | inr e ↦
          same _ _
            (booking-try_reserve_other cfg fresh input st k (text_neq input.idempotency_key k e))
    ]
  ]

  cancel-Follows :
      (fresh : Fresh) (j : Text) (st : Store)
      → Follows (booking k st) (booking k (cancel cfg fresh j st).1)
  cancel-Follows fresh j st =
      rw (booking-cancel cfg fresh j k st) (Follows-settled_at cancelled j k st)

  abbrev ensured : Fresh → Reservation → Store → Store
  ensured fresh x st = (ensure_item cfg fresh x.sku_id x.warehouse_id st).1

  release_found-reservations :
      (fresh : Fresh) (c a r : Text) (x : Reservation) (st : Store)
      → (release_found cfg fresh c a r x st).1.reservations
        ≡ (cancel cfg fresh x.idempotency_key (ensured fresh x st)).1.reservations
  unfolding release_found audit
  release_found-reservations fresh c a r x st = ground arith

  release_found-Follows :
      (fresh : Fresh) (c a r : Text) (x : Reservation) (st : Store)
      → Follows (booking k st) (booking k (release_found cfg fresh c a r x st).1)
  release_found-Follows fresh c a r x st = rw (release_found-reservations fresh c a r x st) (
      subst
        (λ (o : Option Booking).
          Follows o (booking k (cancel cfg fresh x.idempotency_key (ensured fresh x st)).1))
        (ap (λ (m : Dict Reservation). Option.map booking_of (get k m))
          (ensure_item-reservations cfg fresh x.sku_id x.warehouse_id st))
        (cancel-Follows fresh x.idempotency_key (ensured fresh x st)))

  release_reservation-Follows :
      (fresh : Fresh) (c i a r : Text) (st : Store)
      → Follows (booking k st) (booking k (release_reservation cfg fresh c i a r st).1)
  unfolding release_reservation
  release_reservation-Follows fresh c i a r st =
      elim (Option-cases (find (λ (x : Reservation). text_eq x.id i) (values st.reservations))) [
        | inl e ↦ rw (e, release_reservation) (Follows-refl (booking k st))
        | inr (x, e) ↦ rw (e, release_reservation) (release_found-Follows fresh c a r x st)
      ]

  adjust_item-reservations :
      (fresh : Fresh) (c i : Text) (input : Adjustment) (st : Store)
      → (adjust_item fresh c i input st).1.reservations ≡ st.reservations
  unfolding adjust_item adjust_found audit
  adjust_item-reservations fresh c i input st = ground arith

  perform-Follows : (c : Call) (st : Store) → Follows (booking k st) (booking k (perform cfg c st))
  unfolding perform
  perform-Follows (reserving fresh input) st = try_reserve-Follows fresh input st
  perform-Follows (confirming fresh j) st =
      rw (booking-confirm cfg fresh j k st) (Follows-settled_at confirmed j k st)
  perform-Follows (cancelling fresh j) st = cancel-Follows fresh j st
  perform-Follows (releasing fresh c i a r) st = release_reservation-Follows fresh c i a r st
  perform-Follows (adjusting fresh c i input) st =
      rw (adjust_item-reservations fresh c i input st) (Follows-refl (booking k st))

  -- Over any calls, whatever they return, a reservation is never lost, its quantity stays, and only
  -- an open one changes its status: what was confirmed stays confirmed, and what was cancelled stays
  -- cancelled.
  pub perform_all-Follows :
      (cs : List Call) (st : Store) → Follows (booking k st) (booking k (perform_all cfg cs st))
  unfolding perform_all
  perform_all-Follows [] st = Follows-refl (booking k st)
  perform_all-Follows (c ∷ cs) st =
      Follows-trans (booking k st) (booking k (perform cfg c st)) _ (perform-Follows c st)
        (perform_all-Follows cs (perform cfg c st))
