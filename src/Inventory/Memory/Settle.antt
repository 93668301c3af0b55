-- ===== src/Inventory/Memory/Settle.antt =====
-- One confirmation or cancellation of a reservation, by its status
-- (services/inventory-service/src/main.ts, `InventoryMemoryStore`).
use kuajing.Base.{◌≡◌, true, some, arith, ap, ◌∙◌}
use kuajing.Base.Text.{Text, text_eq_refl}
use kuajing.Base.Dict.{get}
use kuajing.Base.Failure.{http, ok, err, conflict}
use kuajing.Inventory.Types.{
  reserved, confirmed, cancelled, ReservationIdentity, Config, Fresh, same_identity,
}
use kuajing.Inventory.Memory.{
  Item, Reservation, Store, item_key, ensure_item, result_from_memory, confirm, confirm_found,
  cancel, cancel_found, deduct, give_back, write_item, write_reservation,
}

-- An item that is there is returned, and nothing is made.
pub ensure_item_there :
    (cfg : Config) (fresh : Fresh) (sku_id warehouse_id : Text) (st : Store) {item : Item}
    → get (item_key warehouse_id sku_id) st.items ≡ some item
    → ensure_item cfg fresh sku_id warehouse_id st ≡ (item, st)
unfolding ensure_item
ensure_item_there cfg fresh sku_id warehouse_id st e = ground arith

same_identity_refl : (a : ReservationIdentity) → same_identity a a ≡ true
same_identity_refl a = rw (text_eq_refl a.sku_id, text_eq_refl a.warehouse_id) (ground arith)

-- `confirm` of an open reservation, of one already confirmed, and of one cancelled.
module _ (cfg : Config) (fresh : Fresh) (j : Text) (r : Reservation) (st : Store) where
  pub confirm-reserved :
      get j st.reservations ≡ some r
      → r.status ≡ reserved
      → let (item, st') = ensure_item cfg fresh r.sku_id r.warehouse_id st in
        let stock = deduct r.qty item.stock in
        confirm cfg fresh j st ≡ (
          ok (result_from_memory (record r { status = confirmed }) (record item { stock = stock })),
          write_reservation j r confirmed
              (write_item (item_key r.warehouse_id r.sku_id) item stock st'),
        )
  unfolding confirm confirm_found
  confirm-reserved e s = ground arith

  pub confirm-confirmed :
      get j st.reservations ≡ some r
      → r.status ≡ confirmed
      → let (item, st') = ensure_item cfg fresh r.sku_id r.warehouse_id st in
        confirm cfg fresh j st ≡ (ok (result_from_memory r item), st')
  unfolding confirm confirm_found
  confirm-confirmed e s = ground arith

  pub confirm-cancelled :
      get j st.reservations ≡ some r
      → r.status ≡ cancelled
      → confirm cfg fresh j st
        ≡ (err (http conflict), (ensure_item cfg fresh r.sku_id r.warehouse_id st).1)
  unfolding confirm confirm_found
  confirm-cancelled e s = ground arith

  pub confirm_noop :
      {item : Item}
      → get j st.reservations ≡ some r
      → r.status ≡ confirmed
      → get (item_key r.warehouse_id r.sku_id) st.items ≡ some item
      → confirm cfg fresh j st ≡ (ok (result_from_memory r item), st)
  confirm_noop e s there =
      confirm-confirmed e s
      ∙ ap (λ (p : Item × Store). (ok (result_from_memory r p.0), p.1))
          (ensure_item_there cfg fresh r.sku_id r.warehouse_id st there)

  pub confirm_refused :
      {item : Item}
      → get j st.reservations ≡ some r
      → r.status ≡ cancelled
      → get (item_key r.warehouse_id r.sku_id) st.items ≡ some item
      → confirm cfg fresh j st ≡ (err (http conflict), st)
  confirm_refused e s there =
      confirm-cancelled e s
      ∙ ap (λ (p : Item × Store). (err (http conflict), p.1))
          (ensure_item_there cfg fresh r.sku_id r.warehouse_id st there)

-- `cancel` of an open reservation, of one already cancelled, and of one confirmed.
module _ (cfg : Config) (fresh : Fresh) (j : Text) (r : Reservation) (st : Store) where
  pub cancel-reserved :
      get j st.reservations ≡ some r
      → r.status ≡ reserved
      → let (item, st') = ensure_item cfg fresh r.sku_id r.warehouse_id st in
        let stock = give_back r.qty item.stock in
        cancel cfg fresh j st ≡ (
          ok (result_from_memory (record r { status = cancelled }) (record item { stock = stock })),
          write_reservation j r cancelled
              (write_item (item_key r.warehouse_id r.sku_id) item stock st'),
        )
  unfolding cancel cancel_found
  cancel-reserved e s = ground arith

  pub cancel-cancelled :
      get j st.reservations ≡ some r
      → r.status ≡ cancelled
      → let (item, st') = ensure_item cfg fresh r.sku_id r.warehouse_id st in
        cancel cfg fresh j st ≡ (ok (result_from_memory r item), st')
  unfolding cancel cancel_found
  cancel-cancelled e s = ground arith

  pub cancel-confirmed :
      get j st.reservations ≡ some r
      → r.status ≡ confirmed
      → cancel cfg fresh j st
        ≡ (err (http conflict), (ensure_item cfg fresh r.sku_id r.warehouse_id st).1)
  unfolding cancel cancel_found
  cancel-confirmed e s = ground arith

  pub cancel_noop :
      {item : Item}
      → get j st.reservations ≡ some r
      → r.status ≡ cancelled
      → get (item_key r.warehouse_id r.sku_id) st.items ≡ some item
      → cancel cfg fresh j st ≡ (ok (result_from_memory r item), st)
  cancel_noop e s there =
      cancel-cancelled e s
      ∙ ap (λ (p : Item × Store). (ok (result_from_memory r p.0), p.1))
          (ensure_item_there cfg fresh r.sku_id r.warehouse_id st there)

  pub cancel_refused :
      {item : Item}
      → get j st.reservations ≡ some r
      → r.status ≡ confirmed
      → get (item_key r.warehouse_id r.sku_id) st.items ≡ some item
      → cancel cfg fresh j st ≡ (err (http conflict), st)
  cancel_refused e s there =
      cancel-confirmed e s
      ∙ ap (λ (p : Item × Store). (err (http conflict), p.1))
          (ensure_item_there cfg fresh r.sku_id r.warehouse_id st there)
