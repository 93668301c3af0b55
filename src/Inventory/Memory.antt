-- ===== src/Inventory/Memory.antt =====
-- `InventoryMemoryStore` of services/inventory-service/src/main.ts, method by method. A method
-- takes the store and returns its result with the store as it is afterwards; after a throw that
-- is the store with the writes made before it. The objects in the two maps are reached through
-- their keys only, so a write to an object is a write at its key.
pub mod Admin
pub mod Ledger
pub mod Balance
pub mod Sound
pub mod Settle
pub mod Replay
pub mod Bookings
pub mod Refines
pub mod Lifecycle
pub mod Reserve
pub mod Places
pub mod Stock
mod Tests
use kuajing.Base.{
  ℕ, ◌+◌, Bool, true, false, Option, none, some, List, [], ◌∷◌, ◌++◌, if◌then◌else◌, find, take,
  or_else, map, ltb, length,
}
use kuajing.Base.Int.{ℤ, pos, ◌+ℤ◌, ◌-ℤ◌, ltb_ℤ}
use kuajing.Base.Text.{Text, codes, text_eq}
use kuajing.Base.Dict.{Dict, get, set, values}
use kuajing.Base.Failure.{Failure, http, Result, ok, err, not_found, conflict, inventory_shortage}
use kuajing.Inventory.Types.{
  ReservationStatus, reserved, confirmed, cancelled, AuditAction, manual_release, ReservationInput,
  Adjustment, Quantities, ReservationResult, AdminItem, AuditEvent, Config, Fresh, sellable,
  assert_reservation_replay, action_for_adjustment,
}

-- `MemoryInventoryItem`; its four numbers are `stock`.
pub record Item : Type 0 where
  pub id : Text
  pub sku_id : Text
  pub warehouse_id : Text
  pub stock : Quantities

-- `MemoryReservation`
pub record Reservation : Type 0 where
  pub id : Text
  pub order_id : Option Text
  pub sku_id : Text
  pub warehouse_id : Text
  pub qty : ℕ
  pub status : ReservationStatus
  pub idempotency_key : Text
  pub created_at : Text

pub record Store : Type 0 where
  pub items : Dict Item
  pub reservations : Dict Reservation
  pub audit_events : List AuditEvent

unfoldable pub result_from_memory : Reservation → Item → ReservationResult
result_from_memory r item = record {
  reservation_id = r.id;
  status = r.status;
  sku_id = r.sku_id;
  warehouse_id = r.warehouse_id;
  order_id = r.order_id;
  qty = r.qty;
  stock = item.stock;
  idempotency_key = r.idempotency_key;
}

-- `${warehouseId}:${skuId}`
abbrev pub item_key : Text → Text → Text
item_key warehouse_id sku_id = warehouse_id ++ (b':' ∷ sku_id)

abbrev pub new_item : Config → Fresh → Text → Text → Item
new_item cfg fresh sku_id warehouse_id = record {
  id = fresh.item_id;
  sku_id = sku_id;
  warehouse_id = warehouse_id;
  stock = record {
    available_qty = cfg.default_available_qty;
    reserved_qty = pos 0;
    safety_qty = cfg.default_safety_qty;
    inventory_version = 1;
  };
}

-- The item object at the key, made and stored if it is missing.
unfoldable pub ensure_item : Config → Fresh → Text → Text → Store → Item × Store
ensure_item cfg fresh sku_id warehouse_id st =
    let key = item_key warehouse_id sku_id in
    let made = new_item cfg fresh sku_id warehouse_id in
    elim (get key st.items) [
      | some existing ↦ (existing, st)
      | none ↦ (made, record st { items = set key made st.items })
    ]

-- `constructor`
unfoldable pub new_store : Config → Fresh → Store
new_store cfg fresh =
    (ensure_item cfg fresh cfg.default_sku_id cfg.default_warehouse_id
      (record { items = []; reservations = []; audit_events = [] })).1

abbrev pub write_item : Text → Item → Quantities → Store → Store
write_item key item stock st = record st {
  items = set key (record item { stock = stock }) st.items;
}

-- The branch of `tryReserve` for a key that is in use.
unfoldable pub replay :
    Config → Fresh → ReservationInput → Reservation → Store → Result ReservationResult × Store
replay cfg fresh input existing st =
    let wanted = or_else input.warehouse_id cfg.default_warehouse_id in
    let (item, st') = ensure_item cfg fresh existing.sku_id existing.warehouse_id st in
    elim (assert_reservation_replay
      (record {
        sku_id = existing.sku_id;
        warehouse_id = existing.warehouse_id;
        qty = existing.qty;
      })
      (record { sku_id = input.sku_id; warehouse_id = wanted; qty = input.qty })) [
        | err e ↦ (err e, st)
        | ok _ ↦ (ok (result_from_memory existing item), st')
      ]

abbrev pub take_stock : ℕ → Quantities → Quantities
take_stock qty q = record q {
  reserved_qty = q.reserved_qty +ℤ pos qty;
  inventory_version = q.inventory_version + 1;
}

-- The branch of `tryReserve` for a new key.
unfoldable pub reserve_new :
    Config → Fresh → ReservationInput → Store → Result ReservationResult × Store
reserve_new cfg fresh input st =
    let warehouse_id = or_else input.warehouse_id cfg.default_warehouse_id in
    let key = item_key warehouse_id input.sku_id in
    let (item, st') = ensure_item cfg fresh input.sku_id warehouse_id st in
    let stock = take_stock input.qty item.stock in
    let reservation : Reservation = record {
      id = fresh.reservation_id;
      order_id = input.order_id;
      sku_id = input.sku_id;
      warehouse_id = warehouse_id;
      qty = input.qty;
      status = reserved;
      idempotency_key = input.idempotency_key;
      created_at = fresh.now;
    } in
    let st'' = write_item key item stock st' in
    elim (ltb_ℤ (sellable item.stock) (pos input.qty)) [
      | true ↦ (err (http inventory_shortage), st')
      | false ↦ (
        ok (result_from_memory reservation (record item { stock = stock })),
        record st'' { reservations = set input.idempotency_key reservation st''.reservations },
      )
    ]

unfoldable pub try_reserve :
    Config → Fresh → ReservationInput → Store → Result ReservationResult × Store
try_reserve cfg fresh input st = elim (get input.idempotency_key st.reservations) [
  | some existing ↦ replay cfg fresh input existing st
  | none ↦ reserve_new cfg fresh input st
]

abbrev pub write_reservation : Text → Reservation → ReservationStatus → Store → Store
write_reservation key r status st = record st {
  reservations = set key (record r { status = status }) st.reservations;
}

abbrev pub give_back : ℕ → Quantities → Quantities
give_back qty q = record q {
  reserved_qty = q.reserved_qty -ℤ pos qty;
  inventory_version = q.inventory_version + 1;
}

abbrev pub deduct : ℕ → Quantities → Quantities
deduct qty q = record q {
  available_qty = q.available_qty -ℤ pos qty;
  reserved_qty = q.reserved_qty -ℤ pos qty;
  inventory_version = q.inventory_version + 1;
}

-- `confirm`, once the reservation is found.
pub confirm_found : Config → Fresh → Text → Reservation → Store → Result ReservationResult × Store
confirm_found cfg fresh idempotency_key r st =
    let (item, st') = ensure_item cfg fresh r.sku_id r.warehouse_id st in
    let stock = deduct r.qty item.stock in
    elim r.status [
      | confirmed ↦ (ok (result_from_memory r item), st')
      | cancelled ↦ (err (http conflict), st')
      | reserved ↦ (
        ok (result_from_memory (record r { status = confirmed }) (record item { stock = stock })),
        write_reservation idempotency_key r confirmed
            (write_item (item_key r.warehouse_id r.sku_id) item stock st'),
      )
    ]

pub confirm : Config → Fresh → Text → Store → Result ReservationResult × Store
confirm cfg fresh idempotency_key st = elim (get idempotency_key st.reservations) [
  | none ↦ (err (http not_found), st)
  | some r ↦ confirm_found cfg fresh idempotency_key r st
]

-- `cancel`, once the reservation is found.
unfoldable pub cancel_found :
    Config → Fresh → Text → Reservation → Store → Result ReservationResult × Store
cancel_found cfg fresh idempotency_key r st =
    let (item, st') = ensure_item cfg fresh r.sku_id r.warehouse_id st in
    let stock = give_back r.qty item.stock in
    elim r.status [
      | cancelled ↦ (ok (result_from_memory r item), st')
      | confirmed ↦ (err (http conflict), st')
      | reserved ↦ (
        ok (result_from_memory (record r { status = cancelled }) (record item { stock = stock })),
        write_reservation idempotency_key r cancelled
            (write_item (item_key r.warehouse_id r.sku_id) item stock st'),
      )
    ]

unfoldable pub cancel : Config → Fresh → Text → Store → Result ReservationResult × Store
cancel cfg fresh idempotency_key st = elim (get idempotency_key st.reservations) [
  | none ↦ (err (http not_found), st)
  | some r ↦ cancel_found cfg fresh idempotency_key r st
]
