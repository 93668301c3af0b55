-- ===== src/Inventory/Memory/Admin.antt =====
-- The administrator's methods of `InventoryMemoryStore` and its audit events
-- (services/inventory-service/src/main.ts).
use kuajing.Base.{
  ◌+◌, true, false, none, some, List, [], ◌∷◌, if◌then◌else◌, find, take, or_else, map, ltb, length,
}
use kuajing.Base.Int.{ℤ, pos, ◌+ℤ◌, ltb_ℤ}
use kuajing.Base.Text.{Text, text_eq}
use kuajing.Base.Dict.{get, values}
use kuajing.Base.Failure.{http, Result, ok, err, not_found, conflict}
use kuajing.Inventory.Types.{
  AuditAction, manual_release, Adjustment, Quantities, ReservationResult, AdminItem, AuditEvent,
  Config, Fresh, sellable, action_for_adjustment,
}
use kuajing.Inventory.Memory.{Item, Reservation, Store, item_key, ensure_item, write_item, cancel}

-- `events.pop()`
abbrev pub drop_last : List AuditEvent → List AuditEvent
drop_last [] = []
drop_last (e ∷ []) = []
drop_last (e ∷ f ∷ es) = e ∷ drop_last (f ∷ es)

-- The end of `audit`: `unshift`, and `pop` past 100 events.
unfoldable pub push_audit : AuditEvent → List AuditEvent → List AuditEvent
push_audit e events = if ltb 100 (length (e ∷ events)) then drop_last (e ∷ events) else e ∷ events

unfoldable pub audit :
    Fresh → Text → Text → AuditAction → Text → Text → Quantities → Quantities → Store → Store
audit fresh correlation_id item_id action actor_id reason old_value new_value st =
    let event : AuditEvent = record {
      event_id = fresh.event_id;
      item_id = item_id;
      action = action;
      actor_id = actor_id;
      reason = reason;
      old_value = old_value;
      new_value = new_value;
      correlation_id = correlation_id;
      created_at = fresh.now;
    } in
    record st { audit_events = push_audit event st.audit_events }

-- The numbers of the item object at a key, which `snapshotMemoryItem` reads after the call.
abbrev pub stock_at : Text → Item → Store → Quantities
stock_at key item st = elim (get key st.items) [ some i ↦ i.stock | none ↦ item.stock ]

-- `releaseReservation`, once the reservation is found.
unfoldable pub release_found :
    Config → Fresh → Text → Text → Text → Reservation → Store → Result ReservationResult × Store
release_found cfg fresh correlation_id actor_id reason r st =
    let key = item_key r.warehouse_id r.sku_id in
    let (item, st') = ensure_item cfg fresh r.sku_id r.warehouse_id st in
    let (result, st'') = cancel cfg fresh r.idempotency_key st' in
    elim result [
      | err e ↦ (err e, st'')
      | ok res ↦ (
        ok res,
        audit fresh correlation_id item.id manual_release actor_id reason item.stock
            (stock_at key item st'') st'',
      )
    ]

unfoldable pub release_reservation :
    Config → Fresh → Text → Text → Text → Text → Store → Result ReservationResult × Store
release_reservation cfg fresh correlation_id reservation_id actor_id reason st =
    elim (find (λ (r : Reservation). text_eq r.id reservation_id) (values st.reservations)) [
      | none ↦ (err (http not_found), st)
      | some r ↦ release_found cfg fresh correlation_id actor_id reason r st
    ]

abbrev pub to_admin_item : Item → AdminItem
to_admin_item item = record {
  item_id = item.id;
  sku_id = item.sku_id;
  warehouse_id = item.warehouse_id;
  stock = item.stock;
  sellable_qty = sellable item.stock;
}

-- `input.stocktakeAvailableQty ?? item.availableQty + (input.availableDelta ?? 0)`
abbrev pub next_available : Adjustment → Quantities → ℤ
next_available input q =
    or_else input.stocktake_available_qty (q.available_qty +ℤ or_else input.available_delta (pos 0))

abbrev pub adjusted : Adjustment → Quantities → Quantities
adjusted input q = record q {
  available_qty = next_available input q;
  safety_qty = or_else input.safety_qty q.safety_qty;
  inventory_version = q.inventory_version + 1;
}

-- `adjustItem`, once the item object and its key are found.
unfoldable pub adjust_found :
    Fresh → Text → Adjustment → Text → Item → Store → Result AdminItem × Store
adjust_found fresh correlation_id input key item st =
    let stock = adjusted input item.stock in
    elim (ltb_ℤ (next_available input item.stock) (pos 0)) [
      | true ↦ (err (http conflict), st)
      | false ↦ (
        ok (to_admin_item (record item { stock = stock })),
        audit fresh correlation_id item.id (action_for_adjustment input) input.actor_id input.reason
            item.stock stock (write_item key item stock st),
      )
    ]

unfoldable pub adjust_item : Fresh → Text → Text → Adjustment → Store → Result AdminItem × Store
adjust_item fresh correlation_id item_id input st =
    elim (find (λ (e : Text × Item). text_eq (e.1).id item_id) st.items) [
      | none ↦ (err (http not_found), st)
      | some (key, item) ↦ adjust_found fresh correlation_id input key item st
    ]

unfoldable pub list_items : Store → List AdminItem
list_items st = map to_admin_item (values st.items)

unfoldable pub list_audit_events : Store → List AuditEvent
list_audit_events st = take 100 st.audit_events
