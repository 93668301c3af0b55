-- ===== src/Inventory/Postgres/Tests.antt =====
-- Runs of the repository, and its theorems at work on them
-- (services/inventory-service/src/main.ts).
use kuajing.Base.{ℕ, ◌≡◌, ◌≢◌, refl, true, false, none, [], ◌∷◌, arith}
use kuajing.Base.Int.{ℤ, pos, ◌+ℤ◌, ◌-ℤ◌}
use kuajing.Base.Text.{Text, codes, text_eq, text_eq_iff}
use kuajing.Base.Failure.{http, err, idempotency_conflict}
use kuajing.Inventory.Types.{ReservationInput, Config, Fresh, sellable}
use kuajing.Inventory.Postgres.{
  ItemRow, Database, result_from_rows, find_reservation, first_by, filter_items,
  find_item_for_request, update_item_quantities, insert_row, try_reserve,
}
use kuajing.Inventory.Postgres.Stocked.{IsSound}
use kuajing.Inventory.Postgres.Run.{reserving, confirming, perform_all, perform_all-IsSound}
use kuajing.Inventory.Postgres.Request.{try_reserve_elsewhere}

abbrev cfg : Config
cfg = record {
  store_id = codes "store";
  default_warehouse_id = codes "w1";
  default_sku_id = codes "s1";
  default_available_qty = pos 10;
  default_safety_qty = pos 2;
}

abbrev fresh : Fresh
fresh = record {
  item_id = codes "i9";
  reservation_id = codes "r1";
  event_id = codes "e1";
  now = codes "t1";
}

abbrev key : Text
key = codes "k1"

abbrev order_of : ℕ → ReservationInput
order_of qty = record {
  sku_id = codes "s1";
  warehouse_id = none;
  order_id = none;
  qty = qty;
  idempotency_key = key;
}

abbrev row : Text → Text → ℤ → ℕ → ItemRow
row id warehouse_id available created_at = record {
  id = id;
  store_id = codes "store";
  sku_id = codes "s1";
  warehouse_id = warehouse_id;
  created_at = created_at;
  stock = record {
    available_qty = available;
    reserved_qty = pos 0;
    safety_qty = pos 0;
    inventory_version = 1;
  };
}

-- Two rows of the SKU: five pieces in the default warehouse, eight in another one.
abbrev tables : Database
tables = record {
  items = row (codes "i1") (codes "w1") (pos 5) 1 ∷ row (codes "i2") (codes "w2") (pos 8) 2 ∷ [];
  reservations = [];
  audit_events = [];
}

perform_all-IsSound_example :
    IsSound (perform_all cfg (reserving fresh (order_of 3) ∷ confirming key ∷ []) tables)
unfolding text_eq
perform_all-IsSound_example =
    perform_all-IsSound cfg (reserving fresh (order_of 3) ∷ confirming key ∷ []) tables (record {
      distinct = (refl, (refl, tt));
      stocked = ((omega arith, omega arith), ((omega arith, omega arith), tt));
    })

elsewhere : codes "w2" ≢ codes "w1"
unfolding text_eq
elsewhere e = let differ : false ≡ true = (text_eq_iff (codes "w2") (codes "w1")).1 e in cc differ

-- The row with the most for sale is the one of the other warehouse.
try_reserve_elsewhere_example :
    let db = (try_reserve cfg fresh (order_of 3) tables).1 in
    try_reserve cfg fresh (order_of 3) db ≡ (err (http idempotency_conflict), db)
unfolding find_reservation find_item_for_request first_by filter_items try_reserve insert_row
    update_item_quantities result_from_rows text_eq sellable ◌+ℤ◌ ◌-ℤ◌
try_reserve_elsewhere_example =
    try_reserve_elsewhere cfg fresh fresh (order_of 3) tables refl refl refl elsewhere refl
