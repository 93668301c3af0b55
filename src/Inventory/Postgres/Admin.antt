-- ===== src/Inventory/Postgres/Admin.antt =====
-- The administrator's methods of `InventoryRepository`
-- (services/inventory-service/src/main.ts): a manual release and an adjustment.
use kuajing.Base.{◌+◌, Bool, true, false, ◌&&◌, none, some, ◌∷◌, if◌then◌else◌, find, map, or_else}
use kuajing.Base.Int.{ℤ, pos, ◌+ℤ◌, ltb_ℤ}
use kuajing.Base.Text.{Text, text_eq}
use kuajing.Base.Failure.{http, Result, ok, err, ◌>>=◌, with_transaction, not_found, conflict}
use kuajing.Inventory.Types.{
  reserved, confirmed, cancelled, AuditAction, manual_release, Adjustment, Quantities,
  ReservationResult, AdminItem, AuditEvent, Config, Fresh, sellable, action_for_adjustment,
}
use kuajing.Inventory.Postgres.{
  ItemRow, ReservationRow, Database, Handler, result_from_rows, find_item_for_reservation,
  settle_row,
}

-- `insertAuditEvent`, under the store's id.
unfoldable pub insert_audit_event :
    Config
    → Fresh
    → Text
    → Text
    → AuditAction
    → Text
    → Text
    → Quantities
    → Quantities
    → Database
    → Database
insert_audit_event cfg fresh correlation_id item_id action actor_id reason old_value new_value db =
    let event : AuditEvent = record {
      event_id = fresh.event_id;
      item_id = item_id;
      action = action;
      actor_id = actor_id;
      reason = reason;
      old_value = old_value;
      new_value = new_value;
      correlation_id = correlation_id;
      created_at = fresh.now;
    } in
    record db { audit_events = (cfg.store_id, event) ∷ db.audit_events }

-- `releaseReservation`, once the reservation and its item are found.
unfoldable pub release_row :
    Config → Fresh → Text → Text → Text → ReservationRow → ItemRow → Handler ReservationResult
release_row cfg fresh correlation_id actor_id reason r item db =
    let released = (do
      (res, db') ← settle_row cfg r item (pos 0) cancelled db
      ok (
        res,
        insert_audit_event cfg fresh correlation_id item.id manual_release actor_id reason
            item.stock res.stock db',
      )) in
    elim r.status [
      | cancelled ↦ ok (result_from_rows r item, db)
      | confirmed ↦ err (http conflict)
      | reserved ↦ released
    ]

abbrev pub by_id : Config → Text → ReservationRow → Bool
by_id cfg id r = text_eq r.store_id cfg.store_id && text_eq r.id id

unfoldable pub release_reservation :
    Config → Fresh → Text → Text → Text → Text → Database → Result ReservationResult × Database
release_reservation cfg fresh correlation_id reservation_id actor_id reason = with_transaction λ db.
    elim (find (by_id cfg reservation_id) db.reservations) [
      | none ↦ err (http not_found)
      | some r ↦ do
        item ← find_item_for_reservation cfg r db
        release_row cfg fresh correlation_id actor_id reason r item db
    ]

abbrev pub next_available : Adjustment → Quantities → ℤ
next_available input q =
    or_else input.stocktake_available_qty (q.available_qty +ℤ or_else input.available_delta (pos 0))

abbrev pub adjusted : Adjustment → Quantities → Quantities
adjusted input q = record q {
  available_qty = next_available input q;
  safety_qty = or_else input.safety_qty q.safety_qty;
  inventory_version = q.inventory_version + 1;
}

-- `findItemById`
abbrev pub item_by_id : Config → Text → ItemRow → Bool
item_by_id cfg id i = text_eq i.store_id cfg.store_id && text_eq i.id id

abbrev to_admin_item : ItemRow → AdminItem
to_admin_item item = record {
  item_id = item.id;
  sku_id = item.sku_id;
  warehouse_id = item.warehouse_id;
  stock = item.stock;
  sellable_qty = sellable item.stock;
}

abbrev pub adjust_in_store : Config → Text → Quantities → ItemRow → ItemRow
adjust_in_store cfg id stock i = if item_by_id cfg id i then record i { stock = stock } else i

-- `adjustItem`, once the row is found. The UPDATE writes quantities computed from that row.
unfoldable pub adjust_row : Config → Fresh → Text → Adjustment → ItemRow → Handler AdminItem
adjust_row cfg fresh correlation_id input item db =
    let stock = adjusted input item.stock in
    let db' = record db { items = map (adjust_in_store cfg item.id stock) db.items } in
    elim (ltb_ℤ (next_available input item.stock) (pos 0)) [
      | true ↦ err (http conflict)
      | false ↦ ok (
        to_admin_item (record item { stock = stock }),
        insert_audit_event cfg fresh correlation_id item.id (action_for_adjustment input)
            input.actor_id input.reason item.stock stock db',
      )
    ]

unfoldable pub adjust_item :
    Config → Fresh → Text → Text → Adjustment → Database → Result AdminItem × Database
adjust_item cfg fresh correlation_id item_id input = with_transaction λ db.
    elim (find (item_by_id cfg item_id) db.items) [
      | none ↦ err (http not_found)
      | some item ↦ adjust_row cfg fresh correlation_id input item db
    ]
