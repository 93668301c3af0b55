-- ===== src/Inventory/Postgres.antt =====
-- `InventoryRepository` of services/inventory-service/src/main.ts over its three tables. A query is
-- a function on the lists of rows; a handler runs inside `with_transaction`, which drops every
-- write of a handler that throws. Rows that an ORDER BY leaves equal are taken in table order.
pub mod Admin
pub mod Rows
pub mod Stocked
pub mod Run
pub mod Request
mod Tests
use kuajing.Base.{
  ℕ, ◌+◌, Bool, true, false, ◌&&◌, ◌||◌, not, Option, none, some, List, [], ◌∷◌, if◌then◌else◌,
  find, map, ltb, or_else,
}
use kuajing.Base.Int.{ℤ, pos, negsuc, ◌+ℤ◌, ◌-ℤ◌, ltb_ℤ}
use kuajing.Base.Text.{Text, text_eq}
use kuajing.Base.Failure.{
  Failure, http, Result, ok, err, ◌>>=◌, ◌>>◌, throw_if, with_transaction, not_found, conflict,
  inventory_shortage,
}
use kuajing.Inventory.Types.{
  ReservationStatus, reserved, confirmed, cancelled, AuditAction, manual_release, ReservationInput,
  Adjustment, Quantities, ReservationResult, AdminItem, AuditEvent, Config, Fresh, sellable,
  assert_reservation_replay, action_for_adjustment,
}

-- A row of `inventory_items`.
pub record ItemRow : Type 0 where
  pub id : Text
  pub store_id : Text
  pub sku_id : Text
  pub warehouse_id : Text
  pub stock : Quantities
  pub created_at : ℕ

-- A row of `inventory_reservations`.
pub record ReservationRow : Type 0 where
  pub id : Text
  pub store_id : Text
  pub order_id : Option Text
  pub sku_id : Text
  pub warehouse_id : Text
  pub qty : ℕ
  pub status : ReservationStatus
  pub idempotency_key : Text

pub record Database : Type 0 where
  pub items : List ItemRow
  pub reservations : List ReservationRow
  pub audit_events : List (Text × AuditEvent)

abbrev pub Handler : Type 0 → Type 0
Handler A = Database → Result (A × Database)

infixl 6 ◌>>>◌
-- The next query of a handler.
abbrev pub ◌>>>◌ : {A B : Type 0} → Handler A → (A → Handler B) → Handler B
◌>>>◌ m f db = elim (m db) [ ok (a, db') ↦ f a db' | err e ↦ err e ]

pub result_from_rows : ReservationRow → ItemRow → ReservationResult
result_from_rows r item = record {
  reservation_id = r.id;
  status = r.status;
  sku_id = r.sku_id;
  warehouse_id = r.warehouse_id;
  order_id = r.order_id;
  qty = r.qty;
  stock = item.stock;
  idempotency_key = r.idempotency_key;
}

-- `findReservation`
pub find_reservation : Config → Text → Database → Option ReservationRow
find_reservation cfg key db =
    find (λ (r : ReservationRow). text_eq r.store_id cfg.store_id && text_eq r.idempotency_key key)
      db.reservations

-- `ORDER BY … LIMIT 1`: the first row that no row after it comes before.
pub first_by : (ItemRow → ItemRow → Bool) → List ItemRow → Option ItemRow
first_by before [] = none
first_by before (x ∷ xs) = elim (first_by before xs) [
  | none ↦ some x
  | some y ↦ if before y x then some y else some x
]

pub filter_items : (ItemRow → Bool) → List ItemRow → List ItemRow
filter_items p [] = []
filter_items p (x ∷ xs) = let rest = filter_items p xs in if p x then x ∷ rest else rest

abbrev pub at_place : Config → Text → Text → ItemRow → Bool
at_place cfg sku_id warehouse_id i =
    text_eq i.store_id cfg.store_id
    && text_eq i.sku_id sku_id
    && text_eq i.warehouse_id warehouse_id

abbrev pub older : ItemRow → ItemRow → Bool
older a b = ltb a.created_at b.created_at

-- `findItemForReservation`
pub find_item_for_reservation : Config → ReservationRow → Database → Result ItemRow
find_item_for_reservation cfg r db =
    elim (first_by older (filter_items (at_place cfg r.sku_id r.warehouse_id) db.items)) [
      | none ↦ err (http not_found)
      | some i ↦ ok i
    ]

-- `ORDER BY (available_qty - reserved_qty - safety_qty) DESC, created_at ASC`
abbrev pub better : ItemRow → ItemRow → Bool
better a b =
    ltb_ℤ (sellable b.stock) (sellable a.stock)
    || not (ltb_ℤ (sellable a.stock) (sellable b.stock)) && older a b

abbrev pub requested : Config → ReservationInput → ItemRow → Bool
requested cfg input i =
    text_eq i.store_id cfg.store_id
    && text_eq i.sku_id input.sku_id
    && elim input.warehouse_id [ none ↦ true | some w ↦ text_eq i.warehouse_id w ]

-- `findItemForReservationRequest`
pub find_item_for_request : Config → ReservationInput → Database → Result ItemRow
find_item_for_request cfg input db =
    elim (first_by better (filter_items (requested cfg input) db.items)) [
      | none ↦ err (http not_found)
      | some i ↦ ok i
    ]

abbrev pub moved : ℤ → ℤ → Quantities → Quantities
moved reserved_delta available_delta q = record q {
  reserved_qty = q.reserved_qty +ℤ reserved_delta;
  available_qty = q.available_qty +ℤ available_delta;
  inventory_version = q.inventory_version + 1;
}

abbrev pub update_row : Text → (Quantities → Quantities) → ItemRow → ItemRow
update_row id change i = if text_eq i.id id then record i { stock = change i.stock } else i

abbrev pub is_broken : Quantities → Bool
is_broken q = ltb_ℤ q.available_qty (pos 0) || ltb_ℤ q.reserved_qty (pos 0)

-- `updateItemQuantities`
pub update_item_quantities : Text → ℤ → ℤ → Handler ItemRow
update_item_quantities id reserved_delta available_delta db =
    let items = map (update_row id (moved reserved_delta available_delta)) db.items in
    elim (find (λ (i : ItemRow). text_eq i.id id) items) [
      | none ↦ err (http conflict)
      | some i ↦
          if is_broken i.stock then err (http conflict) else ok (i, record db { items = items })
    ]

-- `assertReservationReplay` on the stored row and the request.
abbrev pub checked_replay : Config → ReservationInput → ReservationRow → Result (Unit {0})
checked_replay cfg input existing =
    assert_reservation_replay
      (record {
        sku_id = existing.sku_id;
        warehouse_id = existing.warehouse_id;
        qty = existing.qty;
      })
      (record {
        sku_id = input.sku_id;
        warehouse_id = or_else input.warehouse_id cfg.default_warehouse_id;
        qty = input.qty;
      })

-- The branch of `tryReserve` for a key that is in use.
pub replay_row : Config → ReservationInput → ReservationRow → Handler ReservationResult
replay_row cfg input existing db = do
  checked_replay cfg input existing
  item ← find_item_for_reservation cfg existing db
  ok (result_from_rows existing item, db)

abbrev pub new_row : Config → Fresh → ReservationInput → Text → ReservationRow
new_row cfg fresh input warehouse_id = record {
  id = fresh.reservation_id;
  store_id = cfg.store_id;
  order_id = input.order_id;
  sku_id = input.sku_id;
  warehouse_id = warehouse_id;
  qty = input.qty;
  status = reserved;
  idempotency_key = input.idempotency_key;
}

-- The branch of `tryReserve` for a new key.
pub insert_row : Config → Fresh → ReservationInput → Handler ReservationResult
insert_row cfg fresh input db = do
  item ← find_item_for_request cfg input db
  throw_if (ltb_ℤ (sellable item.stock) (pos input.qty)) (http inventory_shortage)
  (updated, db') ← update_item_quantities item.id (pos input.qty) (pos 0) db
  let row = new_row cfg fresh input item.warehouse_id
  ok (result_from_rows row updated, record db' { reservations = row ∷ db'.reservations })

pub try_reserve : Config → Fresh → ReservationInput → Database → Result ReservationResult × Database
try_reserve cfg fresh input = with_transaction λ db.
    elim (find_reservation cfg input.idempotency_key db) [
      | some existing ↦ replay_row cfg input existing db
      | none ↦ insert_row cfg fresh input db
    ]

abbrev pub restatus : Config → Text → ReservationStatus → ReservationRow → ReservationRow
restatus cfg id status r =
    if text_eq r.id id && text_eq r.store_id cfg.store_id then record r { status = status } else r

-- `updateReservationStatus`
pub update_reservation_status : Config → ReservationRow → ReservationStatus → Handler ReservationRow
update_reservation_status cfg r status db =
    let rows = map (restatus cfg r.id status) db.reservations in
    let here =
      find (λ (row : ReservationRow). text_eq row.id r.id && text_eq row.store_id cfg.store_id)
        rows in
    ok (or_else here (record r { status = status }), record db { reservations = rows })

-- The writes of `confirm` (`available_delta` below zero) and of `cancel` (zero).
pub settle_row :
    Config → ReservationRow → ItemRow → ℤ → ReservationStatus → Handler ReservationResult
settle_row cfg r item available_delta status db = do
  (updated, db') ← update_item_quantities item.id (pos 0 -ℤ pos r.qty) available_delta db
  (row, db'') ← update_reservation_status cfg r status db'
  ok (result_from_rows row updated, db'')

-- `requireReservation`
abbrev pub require_reservation : Config → Text → Database → Result ReservationRow
require_reservation cfg key db = elim (find_reservation cfg key db) [
  | none ↦ err (http not_found)
  | some r ↦ ok r
]

pub confirm_row : Config → ReservationRow → ItemRow → Handler ReservationResult
confirm_row cfg r item db = elim r.status [
  | confirmed ↦ ok (result_from_rows r item, db)
  | cancelled ↦ err (http conflict)
  | reserved ↦ settle_row cfg r item (pos 0 -ℤ pos r.qty) confirmed db
]

pub confirm : Config → Text → Database → Result ReservationResult × Database
confirm cfg key = with_transaction λ db. do
  r ← require_reservation cfg key db
  item ← find_item_for_reservation cfg r db
  confirm_row cfg r item db

pub cancel_row : Config → ReservationRow → ItemRow → Handler ReservationResult
cancel_row cfg r item db = elim r.status [
  | cancelled ↦ ok (result_from_rows r item, db)
  | confirmed ↦ err (http conflict)
  | reserved ↦ settle_row cfg r item (pos 0) cancelled db
]

pub cancel : Config → Text → Database → Result ReservationResult × Database
cancel cfg key = with_transaction λ db. do
  r ← require_reservation cfg key db
  item ← find_item_for_reservation cfg r db
  cancel_row cfg r item db
