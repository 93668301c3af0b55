-- ===== src/Inventory/Memory/Tests.antt =====
-- Runs of the memory store, and its theorems at work on them
-- (services/inventory-service/src/main.ts).
use kuajing.Base.{ℕ, ◌≡◌, refl, Option, none, some, [], ◌∷◌, arith}
use kuajing.Base.Int.{ℤ, pos, negsuc, ◌+ℤ◌, ◌-ℤ◌, ◌≤ℤ◌}
use kuajing.Base.Text.{Text, codes, text_eq}
use kuajing.Base.Dict.{get, set}
use kuajing.Base.Failure.{http, Result, ok, err, inventory_shortage}
use kuajing.Inventory.Types.{
  ReservationStatus, reserved, ReservationInput, Adjustment, Quantities, ReservationResult, Config,
  Fresh, AuditEvent, manual_adjustment, sellable,
}
use kuajing.Inventory.Memory.{
  Item, Reservation, Store, item_key, ensure_item, new_store, result_from_memory, reserve_new,
  try_reserve, confirm_found, confirm, cancel_found, cancel,
}
use kuajing.Inventory.Memory.Ledger.{reserved_of, held}
use kuajing.Inventory.Memory.Sound.{reserving, confirming, perform_all, reserved_matches_open}
use kuajing.Inventory.Memory.Bookings.{booking}
use kuajing.Inventory.Memory.Lifecycle.{Follows, perform_all-Follows}
use kuajing.Inventory.Memory.Replay.{confirm_again, cancel_again}
use kuajing.Inventory.Memory.Reserve.{IsHeld, try_reserve_again, try_reserve-IsWithin}
use kuajing.Inventory.Memory.Stock.{IsStock, settle_stock, confirm_overdraws}

abbrev cfg : Config
cfg = record {
  store_id = codes "store";
  default_warehouse_id = codes "w1";
  default_sku_id = codes "s1";
  default_available_qty = pos 10;
  default_safety_qty = pos 2;
}

abbrev fresh : Fresh
fresh = record {
  item_id = codes "i1";
  reservation_id = codes "r1";
  event_id = codes "e1";
  now = codes "t1";
}

abbrev later : Fresh
later = record {
  item_id = codes "i2";
  reservation_id = codes "r2";
  event_id = codes "e2";
  now = codes "t2";
}

abbrev key : Text
key = codes "k1"

abbrev order_of : ℕ → ReservationInput
order_of qty = record {
  sku_id = codes "s1";
  warehouse_id = none;
  order_id = none;
  qty = qty;
  idempotency_key = key;
}

-- A new store, and the same after three pieces were reserved.
abbrev empty : Store
empty = new_store cfg fresh

abbrev booked : Store
booked = (try_reserve cfg fresh (order_of 3) empty).1

abbrev stock_of : Result ReservationResult × Store → Option Quantities
stock_of (ok r, st) = some r.stock
stock_of (err e, st) = none

reserve_three :
    stock_of (try_reserve cfg fresh (order_of 3) empty)
    ≡ some (record {
      available_qty = pos 10;
      reserved_qty = pos 3;
      safety_qty = pos 2;
      inventory_version = 2;
    })
unfolding new_store ensure_item try_reserve reserve_new result_from_memory get set text_eq sellable
    ◌+ℤ◌ ◌-ℤ◌
reserve_three = refl

reserve_nine : try_reserve cfg fresh (order_of 9) empty ≡ (err (http inventory_shortage), empty)
unfolding new_store ensure_item try_reserve reserve_new result_from_memory get set text_eq sellable
    ◌+ℤ◌ ◌-ℤ◌
reserve_nine = refl

reserved_matches_open_example :
    reserved_of (
      get
        (item_key (codes "w1") (codes "s1"))
        (perform_all cfg
          (reserving fresh (order_of 3) ∷ confirming fresh key ∷ [])
          (new_store cfg fresh)).items)
    ≡ pos (
        held
          (item_key (codes "w1") (codes "s1"))
          (perform_all cfg
            (reserving fresh (order_of 3) ∷ confirming fresh key ∷ [])
            (new_store cfg fresh)).reservations)
reserved_matches_open_example =
    reserved_matches_open cfg fresh (reserving fresh (order_of 3) ∷ confirming fresh key ∷ [])
      (codes "w1") (codes "s1")

confirm_again_example :
    confirm cfg later key (confirm cfg fresh key booked).1 ≡ confirm cfg fresh key booked
unfolding new_store ensure_item try_reserve reserve_new confirm confirm_found result_from_memory get
    set text_eq sellable ◌+ℤ◌ ◌-ℤ◌
confirm_again_example = confirm_again cfg fresh later key booked refl

cancel_again_example :
    cancel cfg later key (cancel cfg fresh key booked).1 ≡ cancel cfg fresh key booked
unfolding new_store ensure_item try_reserve reserve_new cancel cancel_found result_from_memory get
    set text_eq sellable ◌+ℤ◌ ◌-ℤ◌
cancel_again_example = cancel_again cfg fresh later key booked refl

try_reserve_again_example :
    try_reserve cfg later (order_of 3) (try_reserve cfg fresh (order_of 3) empty).1
    ≡ try_reserve cfg fresh (order_of 3) empty
unfolding new_store ensure_item try_reserve reserve_new result_from_memory get set text_eq sellable
    ◌+ℤ◌ ◌-ℤ◌
try_reserve_again_example = try_reserve_again cfg fresh (order_of 3) empty later refl refl

-- The reservation in `booked`, and its item with less available than was reserved.
abbrev three : Reservation
three = record {
  id = codes "r1";
  order_id = none;
  sku_id = codes "s1";
  warehouse_id = codes "w1";
  qty = 3;
  status = reserved;
  idempotency_key = key;
  created_at = codes "t1";
}

abbrev item_with : ℤ → Item
item_with available = record {
  id = codes "i1";
  sku_id = codes "s1";
  warehouse_id = codes "w1";
  stock = record {
    available_qty = available;
    reserved_qty = pos 3;
    safety_qty = pos 2;
    inventory_version = 2;
  };
}

abbrev store_with : ℤ → Store
store_with available = record {
  items = (item_key (codes "w1") (codes "s1"), item_with available) ∷ [];
  reservations = (key, three) ∷ [];
  audit_events = [];
}

settle_stock_example :
    let done =
      result_from_memory
        (record three { status = ReservationStatus.confirmed })
        (record (item_with (pos 10)) {
          stock = record {
            available_qty = pos 7;
            reserved_qty = pos 0;
            safety_qty = pos 2;
            inventory_version = 3;
          };
        }) in
    let undone =
      result_from_memory
        (record three { status = ReservationStatus.cancelled })
        (record (item_with (pos 10)) {
          stock = record {
            available_qty = pos 10;
            reserved_qty = pos 0;
            safety_qty = pos 2;
            inventory_version = 3;
          };
        }) in
    (done.stock.available_qty ≡ pos 10 -ℤ pos 3)
    × (sellable done.stock ≡ sellable (item_with (pos 10)).stock)
    × IsStock cfg fresh key three
        (store_with (pos 10))
        (item_with (pos 10))
        done.stock
        (confirm cfg fresh key (store_with (pos 10))).1
    × (undone.stock.available_qty ≡ pos 10)
    × (sellable undone.stock ≡ sellable (item_with (pos 10)).stock +ℤ pos 3)
    × IsStock cfg fresh key three
        (store_with (pos 10))
        (item_with (pos 10))
        undone.stock
        (cancel cfg fresh key (store_with (pos 10))).1
unfolding ensure_item confirm confirm_found cancel cancel_found result_from_memory get set text_eq
    sellable ◌+ℤ◌ ◌-ℤ◌
settle_stock_example =
    settle_stock cfg fresh key three (store_with (pos 10)) (item_with (pos 10)) (refl, refl, refl)
      refl refl

confirm_overdraws_example :
    (done : ReservationResult) × ((confirm cfg fresh key (store_with (pos 1))).0 ≡ ok done)
    × (done.stock.available_qty ≤ℤ negsuc 0)
    × IsStock cfg fresh key three
        (store_with (pos 1))
        (item_with (pos 1))
        done.stock
        (confirm cfg fresh key (store_with (pos 1))).1
unfolding get text_eq ◌+ℤ◌
confirm_overdraws_example =
    confirm_overdraws cfg fresh key three (store_with (pos 1)) (item_with (pos 1))
      (refl, refl, refl) (omega arith)

abbrev five_more : Adjustment
five_more = record {
  available_delta = some (pos 5);
  stocktake_available_qty = none;
  safety_qty = none;
  reason = codes "found";
  actor_id = codes "admin";
}

abbrev raised : Quantities
raised = record {
  available_qty = pos 15;
  reserved_qty = pos 3;
  safety_qty = pos 2;
  inventory_version = 3;
}

abbrev event : AuditEvent
event = record {
  event_id = codes "e1";
  item_id = codes "i1";
  action = manual_adjustment;
  actor_id = codes "admin";
  reason = codes "found";
  old_value = (item_with (pos 10)).stock;
  new_value = raised;
  correlation_id = codes "c1";
  created_at = codes "t1";
}

try_reserve-IsWithin_example :
    let q = (result_from_memory three (item_with (pos 10))).stock in
    ((q.reserved_qty +ℤ q.safety_qty ≤ℤ q.available_qty)
      × (q.reserved_qty
          ≡ reserved_of (get (item_key (codes "w1") (codes "s1")) empty.items) +ℤ pos 3)
      × (q.available_qty ≡ pos 10))
    × IsHeld cfg fresh (order_of 3) empty q (try_reserve cfg fresh (order_of 3) empty).1
unfolding new_store ensure_item try_reserve reserve_new result_from_memory get set text_eq sellable
    ◌+ℤ◌ ◌-ℤ◌
try_reserve-IsWithin_example = try_reserve-IsWithin cfg fresh (order_of 3) empty refl refl

abbrev uuid : Text
uuid = codes "00000000-0000-4000-8000-000000003001"

perform_all-Follows_example :
    Follows (booking key booked) (booking key (perform_all cfg (confirming later key ∷ []) booked))
perform_all-Follows_example = perform_all-Follows cfg key (confirming later key ∷ []) booked
