-- ===== src/Inventory/Memory/Balance.antt =====
-- Every operation of `InventoryMemoryStore` keeps the books of Memory/Ledger.antt
-- (services/inventory-service/src/main.ts).
use kuajing.Base.{◌≡◌, refl, none, some, arith, or_else}
use kuajing.Base.Int.{pos, ◌+ℤ◌, ◌-ℤ◌, int_laws}
use kuajing.Base.Text.{Text, text_eq_iff, text_eq_refl}
use kuajing.Base.Dict.{get, get-set, IsKeyed, set-IsKeyed}
use kuajing.Inventory.Types.{
  ReservationStatus, reserved, confirmed, cancelled, ReservationInput, Adjustment, Quantities,
  Config, Fresh,
}
use kuajing.Inventory.Memory.{
  Item, Reservation, Store, item_key, ensure_item, write_item, write_reservation, new_item,
  reserve_new, confirm_found, cancel_found, take_stock, deduct, give_back,
}
use kuajing.Inventory.Memory.Admin.{adjust_found, audit, adjusted}
use kuajing.Inventory.Memory.Ledger.{
  counted, counted_at, IsBalanced, ensure_item-reservations, get-ensure_item,
  ensure_item-IsBalanced, settled, settled-IsBalanced,
}

module _ (cfg : Config) (fresh : Fresh) where
  pub reserve_new-IsBalanced :
      (input : ReservationInput) (st : Store)
      → get input.idempotency_key st.reservations ≡ none
      → IsBalanced st
      → IsBalanced (reserve_new cfg fresh input st).1
  unfolding reserve_new
  reserve_new-IsBalanced input st missing h k = ground (arith, ensured k, booked k)
    where
      warehouse_id : Text
      warehouse_id = or_else input.warehouse_id cfg.default_warehouse_id

      item : Item
      item = (ensure_item cfg fresh input.sku_id warehouse_id st).0

      st' : Store
      st' = (ensure_item cfg fresh input.sku_id warehouse_id st).1

      ensured : IsBalanced st'
      ensured = ensure_item-IsBalanced cfg fresh input.sku_id warehouse_id st h

      r : Reservation
      r = record {
        id = fresh.reservation_id;
        order_id = input.order_id;
        sku_id = input.sku_id;
        warehouse_id = warehouse_id;
        qty = input.qty;
        status = reserved;
        idempotency_key = input.idempotency_key;
        created_at = fresh.now;
      }

      missing' : get input.idempotency_key st'.reservations ≡ none
      missing' = rw (ensure_item-reservations cfg fresh input.sku_id warehouse_id st) missing

      moved :
          (take_stock input.qty item.stock).reserved_qty
            +ℤ pos (
                counted_at
                  (item_key warehouse_id input.sku_id)
                  (get input.idempotency_key st'.reservations))
          ≡ item.stock.reserved_qty +ℤ pos (counted (item_key warehouse_id input.sku_id) r)
      moved = rw (missing', text_eq_refl (item_key warehouse_id input.sku_id)) (grind int_laws)

      booked :
          IsBalanced (settled st' input.idempotency_key r item (take_stock input.qty item.stock))
      booked =
          settled-IsBalanced st' input.idempotency_key r item (take_stock input.qty item.stock)
            ensured (get-ensure_item cfg fresh input.sku_id warehouse_id st) (λ t e. rw missing')
            moved

-- Closing an open reservation, with its quantity taken off what its item has reserved.
module _ (cfg : Config) (fresh : Fresh) (j : Text) (r : Reservation)
    (status : ReservationStatus) where
  abbrev closed_store : (Quantities → Quantities) → Store → Store
  closed_store change st =
      let (item, st') = ensure_item cfg fresh r.sku_id r.warehouse_id st in
      write_reservation j r status
        (write_item (item_key r.warehouse_id r.sku_id) item (change item.stock) st')

  close-IsBalanced :
      (st : Store) (change : Quantities → Quantities)
      → ((q : Quantities) → (change q).reserved_qty ≡ q.reserved_qty -ℤ pos r.qty)
      → ((k : Text) → counted k (record r { status = status }) ≡ 0)
      → r.status ≡ reserved
      → get j st.reservations ≡ some r
      → IsBalanced st
      → IsBalanced (closed_store change st)
  close-IsBalanced st change less closing opened there h =
      settled-IsBalanced st' j (record r { status = status }) item (change item.stock)
        (ensure_item-IsBalanced cfg fresh r.sku_id r.warehouse_id st h)
        (get-ensure_item cfg fresh r.sku_id r.warehouse_id st) (λ t e. rw (there', e))
        (rw
          (
            closing (item_key r.warehouse_id r.sku_id),
            there',
            text_eq_refl (item_key r.warehouse_id r.sku_id),
            opened,
            less item.stock,
          )
          (grind int_laws))
    where
      item : Item
      item = (ensure_item cfg fresh r.sku_id r.warehouse_id st).0

      st' : Store
      st' = (ensure_item cfg fresh r.sku_id r.warehouse_id st).1

      there' : get j st'.reservations ≡ some r
      there' = rw (ensure_item-reservations cfg fresh r.sku_id r.warehouse_id st) there

module _ (cfg : Config) (fresh : Fresh) (j : Text) where
  pub confirm_found-IsBalanced :
      (r : Reservation) (st : Store)
      → get j st.reservations ≡ some r
      → IsBalanced st
      → IsBalanced (confirm_found cfg fresh j r st).1
  unfolding confirm_found
  confirm_found-IsBalanced r st there h k = ground (
    arith,
    ensure_item-IsBalanced cfg fresh r.sku_id r.warehouse_id st h k,
    λ (e : r.status ≡ reserved).
        close-IsBalanced cfg fresh j r confirmed st (deduct r.qty) (λ q. refl) (λ t. ground arith) e
          there h k,
  )

  pub cancel_found-IsBalanced :
      (r : Reservation) (st : Store)
      → get j st.reservations ≡ some r
      → IsBalanced st
      → IsBalanced (cancel_found cfg fresh j r st).1
  unfolding cancel_found
  cancel_found-IsBalanced r st there h k = ground (
    arith,
    ensure_item-IsBalanced cfg fresh r.sku_id r.warehouse_id st h k,
    λ (e : r.status ≡ reserved).
        close-IsBalanced cfg fresh j r cancelled st (give_back r.qty) (λ q. refl)
          (λ t. ground arith) e there h k,
  )

-- What holds of the store between two calls.
pub record IsSound (st : Store) : Type 0 where
  pub keyed : IsKeyed st.items
  pub balanced : IsBalanced st

module _ (cfg : Config) (fresh : Fresh) where
  pub ensure_item-IsKeyed :
      (sku_id warehouse_id : Text) (st : Store)
      → IsKeyed st.items
      → IsKeyed (ensure_item cfg fresh sku_id warehouse_id st).1.items
  unfolding ensure_item
  ensure_item-IsKeyed sku_id warehouse_id st h = ground (
    arith,
    set-IsKeyed (item_key warehouse_id sku_id) (new_item cfg fresh sku_id warehouse_id) st.items h,
  )

pub adjust_found-IsBalanced :
    (fresh : Fresh) (correlation_id : Text) (input : Adjustment) (key : Text) (item : Item)
    (st : Store)
    → get key st.items ≡ some item
    → IsBalanced st
    → IsBalanced (adjust_found fresh correlation_id input key item st).1
unfolding adjust_found audit
adjust_found-IsBalanced fresh correlation_id input key item st there h k = ground (
  arith,
  h k,
  h key,
  text_eq_iff key k,
  get-set key k (record item { stock = adjusted input item.stock }) st.items,
)
