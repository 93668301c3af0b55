-- ===== src/Inventory/Memory/Reserve.antt =====
-- `tryReserve` of `InventoryMemoryStore` (services/inventory-service/src/main.ts).
use kuajing.Base.{
  ◌≡◌, ◌≢◌, refl, true, false, none, some, ◌⊎◌, arith, inl, inr, subst, ◌∙◌, or_else, Bool-cases,
}
use kuajing.Base.Int.{pos, ltb_ℤ, ◌+ℤ◌, ◌≤ℤ◌, int_laws}
use kuajing.Base.Text.{Text, text_eq_iff}
use kuajing.Base.Dict.{get, set, get-set_self}
use kuajing.Base.Failure.{http, ok, err, inventory_shortage, idempotency_conflict}
use kuajing.Inventory.Types.{
  reserved, ReservationInput, ReservationResult, Quantities, Config, Fresh, sellable,
  assert_reservation_replay,
}
use kuajing.Inventory.Memory.{
  Item, Reservation, Store, item_key, ensure_item, result_from_memory, try_reserve, replay,
  reserve_new, take_stock, write_item,
}
use kuajing.Inventory.Memory.Ledger.{get-ensure_item, reserved_of, reserved_of-ensure_item}
use kuajing.Inventory.Memory.Settle.{ensure_item_there}

module _ (cfg : Config) (fresh : Fresh) (input : ReservationInput) (st : Store) where
  abbrev pub place : Text
  place = or_else input.warehouse_id cfg.default_warehouse_id

  pub replay_same :
      (later : Fresh) (r : Reservation) (st' : Store) {item : Item}
      → r.sku_id ≡ input.sku_id
      → r.warehouse_id ≡ place
      → r.qty ≡ input.qty
      → get (item_key r.warehouse_id r.sku_id) st'.items ≡ some item
      → replay cfg later input r st' ≡ (ok (result_from_memory r item), st')
  unfolding replay assert_reservation_replay
  replay_same later r st' a b c there = ground (
    arith,
    text_eq_iff r.sku_id input.sku_id,
    text_eq_iff r.warehouse_id place,
    ensure_item_there cfg later r.sku_id r.warehouse_id st' there,
  )

  abbrev pub found : Item × Store
  found = ensure_item cfg fresh input.sku_id place st

  abbrev pub booked : Reservation
  booked = record {
    id = fresh.reservation_id;
    order_id = input.order_id;
    sku_id = input.sku_id;
    warehouse_id = place;
    qty = input.qty;
    status = reserved;
    idempotency_key = input.idempotency_key;
    created_at = fresh.now;
  }

  abbrev pub taken : Quantities
  taken = take_stock input.qty found.0.stock

  abbrev pub booked_store : Store
  booked_store = record (write_item (item_key place input.sku_id) found.0 taken found.1) {
    reservations = set input.idempotency_key booked found.1.reservations;
  }

  pub try_reserve-short :
      get input.idempotency_key st.reservations ≡ none
      → ltb_ℤ (sellable found.0.stock) (pos input.qty) ≡ true
      → try_reserve cfg fresh input st ≡ (err (http inventory_shortage), found.1)
  unfolding try_reserve reserve_new
  try_reserve-short missing short = rw (missing, try_reserve) (rw (short, reserve_new))

  pub try_reserve-enough :
      get input.idempotency_key st.reservations ≡ none
      → ltb_ℤ (sellable found.0.stock) (pos input.qty) ≡ false
      → try_reserve cfg fresh input st
        ≡ (ok (result_from_memory booked (record found.0 { stock = taken })), booked_store)
  unfolding try_reserve reserve_new
  try_reserve-enough missing enough = rw (missing, try_reserve) (rw (enough, reserve_new))

  pub try_reserve-used :
      (later : Fresh) (st' : Store) (r : Reservation)
      → get input.idempotency_key st'.reservations ≡ some r
      → try_reserve cfg later input st' ≡ replay cfg later input r st'
  unfolding try_reserve
  try_reserve-used later st' r e = rw (e, try_reserve)

  -- A reservation under a new key that was accepted is answered by the same result when the request
  -- comes again, and the second request changes nothing.
  pub try_reserve_again :
      (later : Fresh) {res : ReservationResult}
      → get input.idempotency_key st.reservations ≡ none
      → (try_reserve cfg fresh input st).0 ≡ ok res
      → try_reserve cfg later input (try_reserve cfg fresh input st).1
        ≡ try_reserve cfg fresh input st
  try_reserve_again later missing accepted =
      elim (Bool-cases (ltb_ℤ (sellable found.0.stock) (pos input.qty))) [
        | inl short ↦ cc (try_reserve-short missing short)
        | inr enough ↦ rw (try_reserve-enough missing enough) again
      ]
    where
      again :
          try_reserve cfg later input booked_store
          ≡ (ok (result_from_memory booked (record found.0 { stock = taken })), booked_store)
      again =
          try_reserve-used later booked_store booked (get-set_self input.idempotency_key booked _)
          ∙ replay_same later booked booked_store refl refl refl
              (get-set_self (item_key place input.sku_id) _ _)

  -- What an accepted reservation promises of the quantities that it returns.
  abbrev pub IsWithin : Quantities → Type 0
  IsWithin q =
      (q.reserved_qty +ℤ q.safety_qty ≤ℤ q.available_qty)
      × (q.reserved_qty ≡ reserved_of (get (item_key place input.sku_id) st.items) +ℤ pos input.qty)
      × (q.available_qty ≡ found.0.stock.available_qty)

  taken-IsWithin : ltb_ℤ (sellable found.0.stock) (pos input.qty) ≡ false → IsWithin taken
  unfolding sellable
  taken-IsWithin enough = (grind (int_laws, enough), rw (← held_before) refl, refl)
    where
      held_before :
          found.0.stock.reserved_qty ≡ reserved_of (get (item_key place input.sku_id) st.items)
      held_before =
          rw (get-ensure_item cfg fresh input.sku_id place st) at
            (reserved_of-ensure_item cfg fresh input.sku_id place st (item_key place input.sku_id))

  -- The item of the request, with its stock, and the reservation of the key in a store.
  abbrev pub IsHeld : Quantities → Store → Type 0
  IsHeld q after =
      ((i : Item) × (get (item_key place input.sku_id) after.items ≡ some i) × (i.stock ≡ q))
      × ((r : Reservation) × (get input.idempotency_key after.reservations ≡ some r)
          × (r.sku_id ≡ input.sku_id)
          × (r.qty ≡ input.qty)
          × (r.status ≡ reserved))

  booked-IsHeld : IsHeld taken booked_store
  booked-IsHeld = (
    (_, get-set_self (item_key place input.sku_id) _ _, refl),
    (booked, get-set_self input.idempotency_key booked _, refl, refl, refl),
  )

  -- A reservation under a new key that was accepted leaves enough stock: what is reserved and what
  -- is kept for safety is at most what is available. It reserves the quantity asked for and no
  -- more, and takes nothing from what is available. The item has this stock in the store, and the
  -- reservation stands there under its key with the SKU and the quantity asked for.
  pub try_reserve-IsWithin :
      {res : ReservationResult}
      → get input.idempotency_key st.reservations ≡ none
      → (try_reserve cfg fresh input st).0 ≡ ok res
      → IsWithin res.stock × IsHeld res.stock (try_reserve cfg fresh input st).1
  unfolding result_from_memory
  try_reserve-IsWithin {res} missing accepted =
      elim (Bool-cases (ltb_ℤ (sellable found.0.stock) (pos input.qty))) [
        | inl short ↦ cc (try_reserve-short missing short)
        | inr enough ↦ rw (try_reserve-enough missing enough) (
            subst (λ (r : ReservationResult). IsWithin r.stock × IsHeld r.stock booked_store)
              (same enough) (taken-IsWithin enough, booked-IsHeld))
      ]
    where
      same :
          ltb_ℤ (sellable found.0.stock) (pos input.qty) ≡ false
          → result_from_memory booked (record found.0 { stock = taken }) ≡ res
      same enough = cc (try_reserve-enough missing enough, accepted)

  -- A key that is in use for another SKU, another warehouse or another quantity is refused as an
  -- idempotency conflict, and the store is left as it was.
  pub try_reserve_conflict :
      {r : Reservation}
      → get input.idempotency_key st.reservations ≡ some r
      → (r.sku_id ≢ input.sku_id) ⊎ (r.warehouse_id ≢ place) ⊎ (r.qty ≢ input.qty)
      → try_reserve cfg fresh input st ≡ (err (http idempotency_conflict), st)
  unfolding replay assert_reservation_replay
  try_reserve_conflict {r} used differs =
      try_reserve-used fresh st r used
      ∙ ground (arith, text_eq_iff r.sku_id input.sku_id, text_eq_iff r.warehouse_id place)
