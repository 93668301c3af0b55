-- ===== src/Inventory/Memory/Stock.antt =====
-- What `confirm`, `cancel` and `adjustItem` of `InventoryMemoryStore` do to the quantities of an
-- item (services/inventory-service/src/main.ts).
use kuajing.Base.{
  ℕ, ◌+◌, ◌≡◌, ◌≤◌, refl, Option, some, List, [], ◌∷◌, arith, ap, subst, ◌∙◌, find, length,
}
use kuajing.Base.Int.{pos, negsuc, ◌+ℤ◌, ◌-ℤ◌, ◌≤ℤ◌, int_laws}
use kuajing.Base.Text.{Text, text_eq}
use kuajing.Base.Dict.{get, get-set_self}
use kuajing.Base.Failure.{Result, ok}
use kuajing.Inventory.Types.{
  reserved, confirmed, cancelled, ReservationResult, Quantities, Adjustment, AdminItem, AuditEvent,
  Config, Fresh, sellable,
}
use kuajing.Inventory.Memory.{
  Item, Reservation, Store, item_key, result_from_memory, confirm, cancel, deduct, give_back,
}
use kuajing.Inventory.Memory.Admin.{
  adjust_item, adjust_found, push_audit, drop_last, next_available,
}
use kuajing.Inventory.Memory.Settle.{ensure_item_there, confirm-reserved, cancel-reserved}

-- Confirming takes as much from what is available as from what is reserved, and cancelling gives
-- the quantity back: for sale there is as much as before, and more by the quantity.
sellable-deduct : (qty : ℕ) (q : Quantities) → sellable (deduct qty q) ≡ sellable q
unfolding sellable
sellable-deduct qty q = grind int_laws

sellable-give_back : (qty : ℕ) (q : Quantities) → sellable (give_back qty q) ≡ sellable q +ℤ pos qty
unfolding sellable
sellable-give_back qty q = grind int_laws

module _ (cfg : Config) (fresh : Fresh) (j : Text) (r : Reservation) (st : Store)
    (item : Item) where
  abbrev IsOpen : Type 0
  IsOpen =
      (get j st.reservations ≡ some r)
      × (r.status ≡ reserved)
      × (get (item_key r.warehouse_id r.sku_id) st.items ≡ some item)

  confirm_result :
      IsOpen
      → (confirm cfg fresh j st).0
        ≡ ok (
            result_from_memory
              (record r { status = confirmed })
              (record item { stock = deduct r.qty item.stock }))
  confirm_result (e, s, there) =
      ap (λ (p : Result ReservationResult × Store). p.0) (confirm-reserved cfg fresh j r st e s)
      ∙ ap
          (λ (p : Item × Store). ok (
            result_from_memory (record r { status = confirmed })
              (record p.0 { stock = deduct r.qty (p.0).stock })))
          (ensure_item_there cfg fresh r.sku_id r.warehouse_id st there)

  cancel_result :
      IsOpen
      → (cancel cfg fresh j st).0
        ≡ ok (
            result_from_memory
              (record r { status = cancelled })
              (record item { stock = give_back r.qty item.stock }))
  cancel_result (e, s, there) =
      ap (λ (p : Result ReservationResult × Store). p.0) (cancel-reserved cfg fresh j r st e s)
      ∙ ap
          (λ (p : Item × Store). ok (
            result_from_memory (record r { status = cancelled })
              (record p.0 { stock = give_back r.qty (p.0).stock })))
          (ensure_item_there cfg fresh r.sku_id r.warehouse_id st there)

  -- The stock of the item of the reservation, in a store.
  abbrev pub IsStock : Quantities → Store → Type 0
  IsStock q after =
      (i : Item) × (get (item_key r.warehouse_id r.sku_id) after.items ≡ some i) × (i.stock ≡ q)

  confirm_stored : IsOpen → IsStock (deduct r.qty item.stock) (confirm cfg fresh j st).1
  confirm_stored (e, s, there) = rw (confirm-reserved cfg fresh j r st e s) (
      (
        _,
        get-set_self (item_key r.warehouse_id r.sku_id) _ _,
        ap (λ (p : Item × Store). deduct r.qty (p.0).stock)
            (ensure_item_there cfg fresh r.sku_id r.warehouse_id st there),
      ))

  cancel_stored : IsOpen → IsStock (give_back r.qty item.stock) (cancel cfg fresh j st).1
  cancel_stored (e, s, there) = rw (cancel-reserved cfg fresh j r st e s) (
      (
        _,
        get-set_self (item_key r.warehouse_id r.sku_id) _ _,
        ap (λ (p : Item × Store). give_back r.qty (p.0).stock)
            (ensure_item_there cfg fresh r.sku_id r.warehouse_id st there),
      ))

  -- The first confirmation of an open reservation takes its quantity from what is available, and
  -- leaves as much for sale as before; the first cancellation takes nothing from what is available,
  -- and puts the quantity on sale again. The item in the store then has the stock of the answer.
  pub settle_stock :
      {done undone : ReservationResult}
      → IsOpen
      → (confirm cfg fresh j st).0 ≡ ok done
      → (cancel cfg fresh j st).0 ≡ ok undone
      → (done.stock.available_qty ≡ item.stock.available_qty -ℤ pos r.qty)
        × (sellable done.stock ≡ sellable item.stock)
        × IsStock done.stock (confirm cfg fresh j st).1
        × (undone.stock.available_qty ≡ item.stock.available_qty)
        × (sellable undone.stock ≡ sellable item.stock +ℤ pos r.qty)
        × IsStock undone.stock (cancel cfg fresh j st).1
  unfolding result_from_memory
  settle_stock {done} {undone} opened c d = (
    cc (confirm_result opened),
    cc (confirm_result opened, sellable-deduct r.qty item.stock),
    subst (λ q. IsStock q (confirm cfg fresh j st).1) {x = deduct r.qty item.stock} {y = done.stock}
        (cc (confirm_result opened)) (confirm_stored opened),
    cc (cancel_result opened),
    cc (cancel_result opened, sellable-give_back r.qty item.stock),
    subst (λ q. IsStock q (cancel cfg fresh j st).1) {x = give_back r.qty item.stock}
        {y = undone.stock} (cc (cancel_result opened)) (cancel_stored opened),
  )

  -- An open reservation on an item with less available than its quantity, as a stocktake may leave
  -- it, is confirmed all the same, and the item is left in the store with less than zero available.
  pub confirm_overdraws :
      IsOpen
      → item.stock.available_qty +ℤ pos 1 ≤ℤ pos r.qty
      → (done : ReservationResult) × ((confirm cfg fresh j st).0 ≡ ok done)
        × (done.stock.available_qty ≤ℤ negsuc 0)
        × IsStock done.stock (confirm cfg fresh j st).1
  unfolding result_from_memory
  confirm_overdraws opened short = (_, confirm_result opened, grind int_laws, confirm_stored opened)

module _ (fresh : Fresh) (correlation_id item_id : Text) (input : Adjustment) (st : Store) where
  abbrev target : Option (Text × Item)
  target = find (λ (e : Text × Item). text_eq (e.1).id item_id) st.items

  -- An adjustment of an item that is accepted answers with at least zero available, the quantity
  -- that the request asks for, the reserved quantity as it was, the next version, and what those
  -- numbers leave for sale.
  pub adjust_item_keeps :
      {key : Text} {item : Item} {shown : AdminItem}
      → target ≡ some (key, item)
      → (adjust_item fresh correlation_id item_id input st).0 ≡ ok shown
      → (pos 0 ≤ℤ shown.stock.available_qty)
        × (shown.stock.available_qty ≡ next_available input item.stock)
        × (shown.stock.reserved_qty ≡ item.stock.reserved_qty)
        × (shown.stock.inventory_version ≡ item.stock.inventory_version + 1)
        × (shown.sellable_qty ≡ sellable shown.stock)
  unfolding adjust_item adjust_found
  adjust_item_keeps e accepted = ground (arith)

length-drop_last : (e : AuditEvent) (es : List AuditEvent) → length (drop_last (e ∷ es)) ≡ length es
length-drop_last e [] = refl
length-drop_last e (f ∷ es) = omega (arith, length-drop_last f es)

-- The store never holds more than 100 audit events.
pub length-push_audit :
    (e : AuditEvent) (events : List AuditEvent)
    → length events ≤ 100
    → length (push_audit e events) ≤ 100
unfolding push_audit
length-push_audit e events h = ground (arith, length-drop_last e events)
