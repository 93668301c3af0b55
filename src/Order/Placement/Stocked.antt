-- ===== src/Order/Placement/Stocked.antt =====
-- An order and its stock (services/order-service/src/main.ts, `createMockOrder`): there is an order
-- exactly if its lines are booked.
use kuajing.Base.{
  ℕ, ◌<◌, ◌≡◌, ◌⊎◌, refl, sym, subst, true, false, none, some, List, arith, inl, inr, Bool-cases,
  All, length, find, find-append,
}
use kuajing.Base.Text.{Text, text_eq_refl, is_blank}
use kuajing.Base.Dict.{get, set, get-set_self}
use kuajing.Base.Failure.{
  Failure, http, thrown, Result, ok, err, Result-cases, dependency_unavailable,
}
use kuajing.Inventory.Types.{ReservationResult}
use kuajing.Inventory.Contract.{is_open, InventoryService, IsLedger}
use kuajing.Order.Service.{answered, lost, Network, trying, cancelling}
use kuajing.Order.Checkout.{Line, line_key, cancel_inventory, reserve_inventory}
use kuajing.Order.Checkout.Cancelling.{among, cancel_inventory-among}
use kuajing.Order.Checkout.AllOrNothing.{IsAllOrNothing, reserve_inventory-IsAllOrNothing}
use kuajing.Order.Checkout.Booked.{AllBooked, reserve_inventory-AllBooked}
use kuajing.Order.Trusted.{Checkout, total_minor}
use kuajing.Order.Orders.{
  Mode, Mode-cases, postgres, memory, insert_order, versions_of, Order, Orders, Setting,
  build_mock_order, row_of,
}
use kuajing.Order.Placement.{
  finish, is_keyed, store_order, mock_memory_order, attach_payment, check_replay, inventory_mode,
  after_failure, place_order,
}

module _ (s : InventoryService) (laws : IsLedger s) (net : Network)
    (cancels : (k : Text) → net cancelling k ≡ answered) (env : Setting) (checkout : Checkout)
    (key : Text) where
  abbrev count : ℕ
  count = length checkout.lines

  abbrev pub AllOpen : s.Store → Type 0
  AllOpen st = (j : ℕ) → j < count → is_open (s.booking (line_key key j) st) ≡ true

  abbrev pub NoneOpen : s.Store → Type 0
  NoneOpen st = (j : ℕ) → j < count → is_open (s.booking (line_key key j) st) ≡ false

  -- The order stands in the table under its key, or in the memory.
  abbrev pub IsStored : Orders → Type 0
  IsStored db =
      ((mode : Mode) × (rs : List ReservationResult) × (find (is_keyed env.store_id key) db.orders
          ≡ some (row_of env checkout (build_mock_order env checkout key postgres mode rs))))
      ⊎ ((rs : List ReservationResult) × (get key db.memory_orders
            ≡ some (build_mock_order env checkout key memory memory rs)))

  -- What a request leaves: the order with all its stock, or nothing.
  abbrev pub IsStocked : Orders → Result Order × (s.Store × Orders) → Type 0
  IsStocked before (ok order, (st, db)) =
      AllOpen st
      × AllBooked s laws net key env.order_id 0 checkout.lines st
      × IsStored db
      × (order.order_id ≡ env.order_id)
      × (order.total_minor ≡ total_minor checkout.lines)
  IsStocked before (err e, (st, db)) = NoneOpen st × (db ≡ before)

  attached :
      (order : Order)
      → ((attach_payment env order).order_id ≡ order.order_id)
        × ((attach_payment env order).total_minor ≡ order.total_minor)
  attached order = ground arith

  module _ (db : Orders) (rows_new : find (is_keyed env.store_id key) db.orders ≡ none)
      (memory_new : get key db.memory_orders ≡ none) where
    checked : check_replay env checkout key db ≡ ok tt
    unfolding check_replay
    checked = ground arith

    stored :
        (mode : Mode) (rs : List ReservationResult)
        → env.storage_answered ≡ true
        → let order = build_mock_order env checkout key postgres mode rs in
          store_order env checkout key mode rs db
          ≡ (ok order, insert_order env checkout key order (versions_of rs) db)
    unfolding store_order
    stored mode rs h = ground arith

    failed :
        (mode : Mode) (rs : List ReservationResult)
        → env.storage_answered ≡ false
        → store_order env checkout key mode rs db ≡ (err thrown, db)
    unfolding store_order
    failed mode rs h = ground arith

    cancelled_all :
        (rs : List ReservationResult) (st : s.Store)
        → ((j : ℕ) → j < count → among (line_key key j) rs ≡ true)
        → NoneOpen (cancel_inventory s net rs st)
    cancelled_all rs st listed j h =
        cancel_inventory-among s laws net cancels rs (line_key key j) st (listed j h)

    abbrev in_memory : List ReservationResult → Order
    in_memory rs = build_mock_order env checkout key memory memory rs

    abbrev in_table : List ReservationResult → Order
    in_table rs = build_mock_order env checkout key postgres (inventory_mode env rs) rs

    kept :
        (rs : List ReservationResult)
        → mock_memory_order env checkout key memory rs db ≡ (
          ok (in_memory rs),
          record db {
            memory_orders = set key (in_memory rs) db.memory_orders;
            fingerprints = set key (env.fingerprint checkout) db.fingerprints;
          },
        )
    unfolding mock_memory_order
    kept rs = ground arith

    finish-stored :
        (rs : List ReservationResult) (st : s.Store)
        → env.storage_answered ≡ true
        → finish s net env checkout key rs st db ≡ (
          ok (attach_payment env (in_table rs)),
          (st, insert_order env checkout key (in_table rs) (versions_of rs) db),
        )
    unfolding finish
    finish-stored rs st h =
        rw (stored (inventory_mode env rs) rs h, finish)
          (rw (stored (inventory_mode env rs) rs h) refl)

    finish-kept :
        (rs : List ReservationResult) (st : s.Store)
        → env.storage_answered ≡ false
        → inventory_mode env rs ≡ memory
        → finish s net env checkout key rs st db ≡ (
          ok (attach_payment env (in_memory rs)),
          (
            st,
            record db {
              memory_orders = set key (in_memory rs) db.memory_orders;
              fingerprints = set key (env.fingerprint checkout) db.fingerprints;
            },
          ),
        )
    unfolding finish after_failure
    finish-kept rs st h m = ground (arith, failed memory rs h, kept rs)

    finish-cancelled :
        (rs : List ReservationResult) (st : s.Store)
        → env.storage_answered ≡ false
        → inventory_mode env rs ≡ postgres
        → finish s net env checkout key rs st db
          ≡ (err (http dependency_unavailable), (cancel_inventory s net rs st, db))
    unfolding finish after_failure
    finish-cancelled rs st h m = ground (arith, failed postgres rs h)

    finish-IsStocked :
        (rs : List ReservationResult) (st : s.Store)
        → AllOpen st
        → AllBooked s laws net key env.order_id 0 checkout.lines st
        → ((j : ℕ) → j < count → among (line_key key j) rs ≡ true)
        → IsStocked db (finish s net env checkout key rs st db)
    finish-IsStocked rs st open_all all_booked listed = elim (Bool-cases env.storage_answered) [
      | inl e ↦ subst (IsStocked db) (sym (finish-stored rs st e)) (
        open_all,
        all_booked,
        inl (
          inventory_mode env rs,
          rs,
          find-append (is_keyed env.store_id key) db.orders (row_of env checkout (in_table rs))
              rows_new (ground (arith, text_eq_refl env.store_id, text_eq_refl key)),
        ),
        (attached (in_table rs)).0,
        (attached (in_table rs)).1,
      )
      | inr e ↦ elim (Mode-cases (inventory_mode env rs)) [
        | inl m ↦
            subst (IsStocked db) (sym (finish-cancelled rs st e m))
              (cancelled_all rs st listed, refl)
        | inr m ↦ subst (IsStocked db) (sym (finish-kept rs st e m)) (
          open_all,
          all_booked,
          inr (rs, get-set_self key (in_memory rs) db.memory_orders),
          (attached (in_memory rs)).0,
          (attached (in_memory rs)).1,
        )
      ]
    ]

    abbrev reserving : s.Store → Result (List ReservationResult) × s.Store
    reserving st = reserve_inventory s net key env.order_id checkout.lines st

    place_order-refused :
        (st : s.Store) {e : Failure}
        → (reserving st).0 ≡ err e
        → place_order s net env checkout key st db ≡ (err e, ((reserving st).1, db))
    unfolding place_order
    place_order-refused st refused = ground (arith, checked)

    place_order-reserved :
        (st : s.Store) {rs : List ReservationResult}
        → (reserving st).0 ≡ ok rs
        → place_order s net env checkout key st db
          ≡ finish s net env checkout key rs (reserving st).1 db
    unfolding place_order
    place_order-reserved st accepted = ground (arith, checked)

    placed :
        (st : s.Store)
        → ((j : ℕ) → s.booking (line_key key j) st ≡ none)
        → IsAllOrNothing s laws net cancels key env.order_id count (reserving st)
        → IsStocked db (place_order s net env checkout key st db)
    placed st unused all = elim (Result-cases (reserving st).0) [
      | inl (rs, e) ↦
          let held = rw e at all in
          subst (IsStocked db) (sym (place_order-reserved st e)) (
            finish-IsStocked rs (reserving st).1 (λ j h. (held j h).0)
              (reserve_inventory-AllBooked s laws net key env.order_id checkout.lines st unused e)
              (λ j h. (held j h).1))
      | inr (f, e) ↦ subst (IsStocked db) (sym (place_order-refused st e)) (rw e at all, refl)
    ]

    -- On any inventory service that keeps the laws of the ledger, a checkout under a key that no
    -- order and no booking has leaves an order with all of its stock booked, under the id drawn and with the total of its lines, or no order and none of it: each
    -- line has an open booking of its SKU and quantity, or no line has an open one. An order that
    -- PostgreSQL does not take is kept in memory, or its stock is given back. The calls that cancel
    -- are all answered, and a call that reserves is answered or does not arrive; a database that does
    -- not answer has rolled back; every line names a SKU.
    pub place_order-IsStocked :
        (st : s.Store)
        → ((k : Text) → (net trying k ≡ answered) ⊎ (net trying k ≡ lost))
        → All (λ (l : Line). is_blank l.sku_id ≡ false) checkout.lines
        → ((j : ℕ) → s.booking (line_key key j) st ≡ none)
        → IsStocked db (place_order s net env checkout key st db)
    place_order-IsStocked st tries skus unused = placed st unused (
        reserve_inventory-IsAllOrNothing s laws net cancels key env.order_id checkout.lines st tries
          skus unused)
