-- ===== src/Inventory/Memory/Refines.antt =====
-- `InventoryMemoryStore` keeps the contract of the inventory service
-- (services/inventory-service/src/main.ts).
use kuajing.Base.{ℕ, ◌+◌, ◌≡◌, refl, subst, ◌∙◌, false, none, some, arith, inl, inr, Option-cases}
use kuajing.Base.Text.{text_eq_refl, is_blank}
use kuajing.Base.Failure.{Failure, Result, ok, err, ok-injective}
use kuajing.Inventory.Types.{
  reserved, confirmed, cancelled, ReservationInput, ReservationResult, Config, Fresh,
}
use kuajing.Inventory.Contract.{is_partial, InventoryService, IsLedger}
use kuajing.Inventory.Memory.{Item, Store, result_from_memory, try_reserve, confirm, cancel}
use kuajing.Inventory.Memory.Reserve.{place, found, booked, booked_store, taken}
use kuajing.Inventory.Memory.Bookings.{
  booking, booked-booking, settled_self, settled_other, booking-confirm, booking-cancel,
  try_reserve_new, booking-try_reserve_used, booking-try_reserve_other,
}

-- A call of the service, that draws the next identifiers and the time.
abbrev serve :
    {A : Type 0}
    → (ℕ → Fresh)
    → (Fresh → Store → Result A × Store)
    → Store × ℕ
    → Result A × (Store × ℕ)
serve draw call p = let (answer, st) = call (draw p.1) p.0 in (answer, (st, p.1 + 1))

-- The store as the service that the order service calls. The state is the store with the number of
-- the calls so far.
abbrev pub memory_service : Config → (ℕ → Fresh) → InventoryService
memory_service cfg draw = record {
  Store = Store × ℕ;
  try_reserve = λ input. serve draw (λ fresh. try_reserve cfg fresh input);
  confirm = λ k. serve draw (λ fresh. confirm cfg fresh k);
  cancel = λ k. serve draw (λ fresh. cancel cfg fresh k);
  booking = λ k p. booking k p.0;
}

module _ (cfg : Config) (draw : ℕ → Fresh) (place_named : is_blank cfg.default_warehouse_id ≡ false)
    (ids_named : (n : ℕ) → is_blank (draw n).reservation_id ≡ false) where
  complete :
      (input : ReservationInput) (p : Store × ℕ) (item : Item)
      → is_blank input.sku_id ≡ false
      → input.warehouse_id ≡ none
      → is_partial (result_from_memory (booked cfg (draw p.1) input p.0) item) ≡ false
  unfolding result_from_memory
  complete input p item sku place = rw (ids_named p.1, sku, place, place_named) refl

  made : (input : ReservationInput) (p : Store × ℕ) → ReservationResult
  made input p =
      result_from_memory (booked cfg (draw p.1) input p.0)
        (record (found cfg (draw p.1) input p.0).0 { stock = taken cfg (draw p.1) input p.0 })

  booked_made :
      (input : ReservationInput) (p : Store × ℕ)
      → (booking input.idempotency_key (booked_store cfg (draw p.1) input p.0)
          ≡ some (record { sku_id = input.sku_id; qty = input.qty; status = reserved }))
        × ((made input p).status ≡ reserved)
        × ((made input p).idempotency_key ≡ input.idempotency_key)
        × (is_blank input.sku_id ≡ false
            → input.warehouse_id ≡ none
            → is_partial (made input p) ≡ false)
  unfolding made result_from_memory
  booked_made input p = (
    booked-booking cfg (draw p.1) input p.0 input.idempotency_key
        ∙ rw (text_eq_refl input.idempotency_key) refl,
    refl,
    refl,
    λ sku place.
        complete input p
          (record (found cfg (draw p.1) input p.0).0 { stock = taken cfg (draw p.1) input p.0 }) sku
          place,
  )

  try_new :
      (input : ReservationInput) (p : Store × ℕ) {res : ReservationResult}
      → booking input.idempotency_key p.0 ≡ none
      → (try_reserve cfg (draw p.1) input p.0).0 ≡ ok res
      → (booking input.idempotency_key (try_reserve cfg (draw p.1) input p.0).1
          ≡ some (record { sku_id = input.sku_id; qty = input.qty; status = reserved }))
        × (res.status ≡ reserved)
        × (res.idempotency_key ≡ input.idempotency_key)
        × (is_blank input.sku_id ≡ false → input.warehouse_id ≡ none → is_partial res ≡ false)
  unfolding made
  try_new input p {res} unused accepted = elim (try_reserve_new cfg (draw p.1) input p.0 unused) [
    | inl (refused, _) ↦ ground arith
    | inr done ↦ rw done (
        subst
          (λ (r : ReservationResult).
            (booking input.idempotency_key (booked_store cfg (draw p.1) input p.0)
              ≡ some (record { sku_id = input.sku_id; qty = input.qty; status = reserved }))
            × (r.status ≡ reserved)
            × (r.idempotency_key ≡ input.idempotency_key)
            × (is_blank input.sku_id ≡ false → input.warehouse_id ≡ none → is_partial r ≡ false))
          {x = made input p} {y = res} (ok-injective cc) (booked_made input p))
  ]

  try_refused :
      (input : ReservationInput) (p : Store × ℕ) {e : Failure}
      → (try_reserve cfg (draw p.1) input p.0).0 ≡ err e
      → booking input.idempotency_key (try_reserve cfg (draw p.1) input p.0).1
        ≡ booking input.idempotency_key p.0
  try_refused input p refused = elim (Option-cases (booking input.idempotency_key p.0)) [
    | inr (b, used) ↦ booking-try_reserve_used cfg (draw p.1) input p.0 used input.idempotency_key
    | inl unused ↦ elim (try_reserve_new cfg (draw p.1) input p.0 unused) [
      | inl (_, same) ↦ same input.idempotency_key
      | inr done ↦ ground arith
    ]
  ]

  -- The store keeps the laws of the ledger. The default warehouse has a name, and no reservation
  -- gets an empty id.
  pub memory_service-IsLedger : IsLedger (memory_service cfg draw)
  memory_service-IsLedger = record {
    try_new = try_new;
    try_used = λ input p used.
        booking-try_reserve_used cfg (draw p.1) input p.0 used input.idempotency_key ∙ used;
    try_refused = try_refused;
    confirm_settles = λ k p. booking-confirm cfg (draw p.1) k k p.0 ∙ settled_self confirmed k p.0;
    cancel_settles = λ k p. booking-cancel cfg (draw p.1) k k p.0 ∙ settled_self cancelled k p.0;
    try_others = λ input k p h. booking-try_reserve_other cfg (draw p.1) input p.0 k h;
    confirm_others =
        λ j k p h. booking-confirm cfg (draw p.1) j k p.0 ∙ settled_other confirmed j k p.0 h;
    cancel_others =
        λ j k p h. booking-cancel cfg (draw p.1) j k p.0 ∙ settled_other cancelled j k p.0 h;
  }
