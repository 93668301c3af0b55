-- ===== src/Inventory/Memory/Replay.antt =====
-- Repeated and conflicting calls of `InventoryMemoryStore`
-- (services/inventory-service/src/main.ts).
use kuajing.Base.{◌≡◌, ◌⊎◌, refl, some, arith, inl, inr, ap, Option-cases}
use kuajing.Base.Text.{Text}
use kuajing.Base.Dict.{get, get-set_self}
use kuajing.Base.Failure.{http, Result, ok, err, conflict}
use kuajing.Inventory.Types.{
  reserved, confirmed, cancelled, ReservationStatus-cases, ReservationResult, Config, Fresh,
}
use kuajing.Inventory.Memory.{Reservation, Store, item_key, confirm, cancel}
use kuajing.Inventory.Memory.Ledger.{get-ensure_item, ensure_item-reservations}
use kuajing.Inventory.Memory.Settle.{
  confirm-confirmed, cancel-cancelled, confirm-cancelled, cancel-confirmed, confirm-reserved,
  confirm_noop, confirm_refused, cancel-reserved, cancel_noop, cancel_refused,
}

module _ (cfg : Config) (fresh later : Fresh) (j : Text) (st : Store) where
  confirm_again_found :
      (r : Reservation)
      → get j st.reservations ≡ some r
      → (r.status ≡ reserved) ⊎ (r.status ≡ confirmed) ⊎ (r.status ≡ cancelled)
      → {res : ReservationResult} → (confirm cfg fresh j st).0 ≡ ok res
      → confirm cfg later j (confirm cfg fresh j st).1 ≡ confirm cfg fresh j st
  confirm_again_found r e (inl s) accepted = rw (confirm-reserved cfg fresh j r st e s) (
      confirm_noop cfg later j (record r { status = confirmed }) _ (get-set_self j _ _) refl
        (get-set_self (item_key r.warehouse_id r.sku_id) _ _))
  confirm_again_found r e (inr (inl s)) accepted = rw (confirm-confirmed cfg fresh j r st e s) (
      confirm_noop cfg later j r _
        (rw (ensure_item-reservations cfg fresh r.sku_id r.warehouse_id st) e) s
        (get-ensure_item cfg fresh r.sku_id r.warehouse_id st))
  confirm_again_found r e (inr (inr s)) accepted =
      cc (
        ap (λ (p : Result ReservationResult × Store). p.0) (confirm-cancelled cfg fresh j r st e s))

  cancel_again_found :
      (r : Reservation)
      → get j st.reservations ≡ some r
      → (r.status ≡ reserved) ⊎ (r.status ≡ confirmed) ⊎ (r.status ≡ cancelled)
      → {res : ReservationResult} → (cancel cfg fresh j st).0 ≡ ok res
      → cancel cfg later j (cancel cfg fresh j st).1 ≡ cancel cfg fresh j st
  cancel_again_found r e (inl s) accepted = rw (cancel-reserved cfg fresh j r st e s) (
      cancel_noop cfg later j (record r { status = cancelled }) _ (get-set_self j _ _) refl
        (get-set_self (item_key r.warehouse_id r.sku_id) _ _))
  cancel_again_found r e (inr (inr s)) accepted = rw (cancel-cancelled cfg fresh j r st e s) (
      cancel_noop cfg later j r _
        (rw (ensure_item-reservations cfg fresh r.sku_id r.warehouse_id st) e) s
        (get-ensure_item cfg fresh r.sku_id r.warehouse_id st))
  cancel_again_found r e (inr (inl s)) accepted =
      cc
        (ap (λ (p : Result ReservationResult × Store). p.0) (cancel-confirmed cfg fresh j r st e s))

  -- A confirmation that succeeds may be repeated: the second one returns the same result, and the
  -- store stays as the first one left it, so nothing is deducted twice.
  pub confirm_again :
      {res : ReservationResult}
      → (confirm cfg fresh j st).0 ≡ ok res
      → confirm cfg later j (confirm cfg fresh j st).1 ≡ confirm cfg fresh j st
  unfolding confirm
  confirm_again accepted = elim (Option-cases (get j st.reservations)) [
    | inl e ↦ ground arith
    | inr (r, e) ↦ confirm_again_found r e (ReservationStatus-cases r.status) accepted
  ]

  -- A cancellation that succeeds may be repeated: the second one returns the same result, and the
  -- store stays as the first one left it, so nothing is given back twice.
  pub cancel_again :
      {res : ReservationResult}
      → (cancel cfg fresh j st).0 ≡ ok res
      → cancel cfg later j (cancel cfg fresh j st).1 ≡ cancel cfg fresh j st
  unfolding cancel
  cancel_again accepted = elim (Option-cases (get j st.reservations)) [
    | inl e ↦ ground arith
    | inr (r, e) ↦ cancel_again_found r e (ReservationStatus-cases r.status) accepted
  ]

  confirm_refused_found :
      (r : Reservation)
      → get j st.reservations ≡ some r
      → (r.status ≡ reserved) ⊎ (r.status ≡ confirmed) ⊎ (r.status ≡ cancelled)
      → {res : ReservationResult} → (cancel cfg fresh j st).0 ≡ ok res
      → confirm cfg later j (cancel cfg fresh j st).1
        ≡ (err (http conflict), (cancel cfg fresh j st).1)
  confirm_refused_found r e (inl s) accepted = rw (cancel-reserved cfg fresh j r st e s) (
      confirm_refused cfg later j (record r { status = cancelled }) _ (get-set_self j _ _) refl
        (get-set_self (item_key r.warehouse_id r.sku_id) _ _))
  confirm_refused_found r e (inr (inr s)) accepted = rw (cancel-cancelled cfg fresh j r st e s) (
      confirm_refused cfg later j r _
        (rw (ensure_item-reservations cfg fresh r.sku_id r.warehouse_id st) e) s
        (get-ensure_item cfg fresh r.sku_id r.warehouse_id st))
  confirm_refused_found r e (inr (inl s)) accepted =
      cc
        (ap (λ (p : Result ReservationResult × Store). p.0) (cancel-confirmed cfg fresh j r st e s))

  cancel_refused_found :
      (r : Reservation)
      → get j st.reservations ≡ some r
      → (r.status ≡ reserved) ⊎ (r.status ≡ confirmed) ⊎ (r.status ≡ cancelled)
      → {res : ReservationResult} → (confirm cfg fresh j st).0 ≡ ok res
      → cancel cfg later j (confirm cfg fresh j st).1
        ≡ (err (http conflict), (confirm cfg fresh j st).1)
  cancel_refused_found r e (inl s) accepted = rw (confirm-reserved cfg fresh j r st e s) (
      cancel_refused cfg later j (record r { status = confirmed }) _ (get-set_self j _ _) refl
        (get-set_self (item_key r.warehouse_id r.sku_id) _ _))
  cancel_refused_found r e (inr (inl s)) accepted = rw (confirm-confirmed cfg fresh j r st e s) (
      cancel_refused cfg later j r _
        (rw (ensure_item-reservations cfg fresh r.sku_id r.warehouse_id st) e) s
        (get-ensure_item cfg fresh r.sku_id r.warehouse_id st))
  cancel_refused_found r e (inr (inr s)) accepted =
      cc (
        ap (λ (p : Result ReservationResult × Store). p.0) (confirm-cancelled cfg fresh j r st e s))

  -- Once a cancellation has succeeded, a confirmation of the same reservation is a conflict and
  -- changes nothing.
  pub confirm-cancel :
      {res : ReservationResult}
      → (cancel cfg fresh j st).0 ≡ ok res
      → confirm cfg later j (cancel cfg fresh j st).1
        ≡ (err (http conflict), (cancel cfg fresh j st).1)
  unfolding cancel
  confirm-cancel accepted = elim (Option-cases (get j st.reservations)) [
    | inl e ↦ ground arith
    | inr (r, e) ↦ confirm_refused_found r e (ReservationStatus-cases r.status) accepted
  ]

  -- Once a confirmation has succeeded, a cancellation of the same reservation is a conflict and
  -- changes nothing.
  pub cancel-confirm :
      {res : ReservationResult}
      → (confirm cfg fresh j st).0 ≡ ok res
      → cancel cfg later j (confirm cfg fresh j st).1
        ≡ (err (http conflict), (confirm cfg fresh j st).1)
  unfolding confirm
  cancel-confirm accepted = elim (Option-cases (get j st.reservations)) [
    | inl e ↦ ground arith
    | inr (r, e) ↦ cancel_refused_found r e (ReservationStatus-cases r.status) accepted
  ]
