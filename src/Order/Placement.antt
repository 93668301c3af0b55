-- ===== src/Order/Placement.antt =====
-- The placing of an order: `createMockOrder` of the controller and of `OrderRepository`, with
-- `mockMemoryOrder` and `attachPayment`
-- (services/order-service/src/main.ts), and `assertCheckoutReplay` of
-- services/order-service/src/checkout-idempotency.ts. One request runs at a time; mails are left
-- out, since their failures are swallowed.
pub mod Stocked
pub mod Again
use kuajing.Base.{
  ℕ, ◌+◌, ◌≡◌, ◌⊎◌, inl, inr, refl, Bool, true, false, ◌&&◌, ◌||◌, not, Option, none, some, List,
  [], ◌∷◌, ◌++◌, map, if◌then◌else◌, find, or_else,
}
use kuajing.Base.Text.{Text, codes, text_eq, is_blank}
use kuajing.Base.Dict.{Dict, get, set}
use kuajing.Base.Failure.{
  Failure, http, thrown, ErrorCode, idempotency_conflict, dependency_unavailable, Result, ok, err,
  ◌>>=◌, ◌>>◌, throw_if, committed,
}
use kuajing.Inventory.Types.{ReservationResult}
use kuajing.Inventory.Contract.{InventoryService}
use kuajing.Order.State.{OrderState, pending_payment, mock_created, reserved}
use kuajing.Order.Request.{Address}
use kuajing.Order.Service.{Network}
use kuajing.Order.Checkout.{Line, line_key, cancel_inventory, reserve_inventory}
use kuajing.Order.Trusted.{Checkout, total_minor}
use kuajing.Order.Orders.{
  Mode, Mode-cases, PaymentMode, Order, OrderRow, LineRow, Orders, Setting, payment_redirect_url,
  build_mock_order, order_of_row, row_of, version_at, next_versions, line_rows, insert_order,
  versions_of, postgres, memory, provider, local_fallback,
}

-- `assertCheckoutReplay`: an order with no fingerprint matches every request.
pub assert_checkout_replay : Option Text → Text → Result (Unit {0})
assert_checkout_replay none incoming = ok tt
assert_checkout_replay (some existing) incoming =
    if is_blank existing || text_eq existing incoming
    then ok tt
    else err (http idempotency_conflict)

abbrev pub is_keyed : Text → Text → OrderRow → Bool
is_keyed store_id key o = text_eq o.store_id store_id && text_eq o.idempotency_key key

-- `createMockOrder` of the repository; a database that does not answer rolls back and throws.
pub store_order :
    Setting → Checkout → Text → Mode → List ReservationResult → Orders → Result Order × Orders
store_order env checkout key mode reservations db =
    let order = build_mock_order env checkout key postgres mode reservations in
    let inserted = insert_order env checkout key order (versions_of reservations) db in
    let found : Result Order × Orders = elim (find (is_keyed env.store_id key) db.orders) [
      | none ↦ (ok order, inserted)
      | some row ↦
          elim (assert_checkout_replay row.request_fingerprint (env.fingerprint checkout)) [
            | err e ↦ (err e, db)
            | ok _ ↦ (ok (order_of_row env row), db)
          ]
    ] in
    if env.storage_answered then found else (err thrown, db)

-- `mockMemoryOrder`
pub mock_memory_order :
    Setting → Checkout → Text → Mode → List ReservationResult → Orders → Result Order × Orders
mock_memory_order env checkout key mode reservations db =
    let order = build_mock_order env checkout key memory mode reservations in
    elim (get key db.memory_orders) [
      | none ↦ (
        ok order,
        record db {
          memory_orders = set key order db.memory_orders;
          fingerprints = set key (env.fingerprint checkout) db.fingerprints;
        },
      )
      | some existing ↦
          elim (assert_checkout_replay (get key db.fingerprints) (env.fingerprint checkout)) [
            | err e ↦ (err e, db)
            | ok _ ↦ (ok existing, db)
          ]
    ]

-- `attachPayment`
abbrev pub attach_payment : Setting → Order → Order
attach_payment env order = elim (env.redirect_url order) [
  | none ↦ order
  | some url ↦ record order { payment_mode = provider; payment_redirect_url = url }
]

abbrev pub replay_of_rows : Setting → Checkout → Text → List OrderRow → Result (Unit {0})
replay_of_rows env checkout key rows = elim (find (is_keyed env.store_id key) rows) [
  | none ↦ ok tt
  | some row ↦ assert_checkout_replay row.request_fingerprint (env.fingerprint checkout)
]

abbrev pub replay_of_memory : Setting → Checkout → Text → Orders → Result (Unit {0})
replay_of_memory env checkout key db = elim (get key db.memory_orders) [
  | none ↦ ok tt
  | some order ↦ assert_checkout_replay (get key db.fingerprints) (env.fingerprint checkout)
]

-- The test before anything is reserved: `assertIdempotencyReplay`, or the orders in memory when the
-- database does not answer.
pub check_replay : Setting → Checkout → Text → Orders → Result (Unit {0})
check_replay env checkout key db =
    if env.replay_answered
    then replay_of_rows env checkout key db.orders
    else replay_of_memory env checkout key db

abbrev pub is_conflict : Failure → Bool
is_conflict thrown = false
is_conflict (http code) = elim code [ idempotency_conflict ↦ true | _ ↦ false ]

abbrev pub is_of_order : Text → ReservationResult → Bool
is_of_order order_id r = elim r.order_id [ none ↦ false | some id ↦ text_eq id order_id ]

abbrev pub of_order : Text → List ReservationResult → List ReservationResult
of_order order_id [] = []
of_order order_id (r ∷ rs) =
    if is_of_order order_id r then r ∷ of_order order_id rs else of_order order_id rs

-- `reservations.some((reservation) => reservation.storageMode === "postgres")`
abbrev pub inventory_mode : Setting → List ReservationResult → Mode
inventory_mode env [] = memory
inventory_mode env (r ∷ rs) = if env.is_postgres r then postgres else inventory_mode env rs

-- The error of a storage that failed.
abbrev pub storage_error : Failure → Failure
storage_error thrown = http dependency_unavailable
storage_error (http code) = http code

module _ (s : InventoryService) (net : Network) where
  -- What follows a failed insertion.
  pub after_failure :
      Setting
      → Checkout
      → Text
      → List ReservationResult
      → Failure
      → s.Store
      → Orders
      → Result Order × (s.Store × Orders)
  after_failure env checkout key reservations e st db =
      let ours = cancel_inventory s net (of_order env.order_id reservations) st in
      let (kept, db') = mock_memory_order env checkout key memory reservations db in
      let fallback : Result Order × (s.Store × Orders) = elim kept [
        | ok order ↦ (ok (attach_payment env order), (st, db'))
        | err e' ↦ (err e', (if is_conflict e' then ours else st, db'))
      ] in
      if is_conflict e then (err e, (ours, db)) else elim (inventory_mode env reservations) [
        | memory ↦ fallback
        | postgres ↦ (err (storage_error e), (cancel_inventory s net reservations st, db))
      ]

  -- What follows the reservation of the lines.
  pub finish :
      Setting
      → Checkout
      → Text
      → List ReservationResult
      → s.Store
      → Orders
      → Result Order × (s.Store × Orders)
  finish env checkout key reservations st db =
      let (stored, db') =
        store_order env checkout key (inventory_mode env reservations) reservations db in
      elim stored [
        | ok order ↦ (ok (attach_payment env order), (st, db'))
        | err e ↦ after_failure env checkout key reservations e st db'
      ]

  -- `createMockOrder` of the controller, after the checkout is resolved.
  pub place_order : Setting → Checkout → Text → s.Store → Orders → Result Order × (s.Store × Orders)
  place_order env checkout key st db = elim (check_replay env checkout key db) [
    | err e ↦ (err e, (st, db))
    | ok _ ↦
        let (answer, st') = reserve_inventory s net key env.order_id checkout.lines st in
        elim answer [
          | err e ↦ (err e, (st', db))
          | ok reservations ↦ finish env checkout key reservations st' db
        ]
  ]
