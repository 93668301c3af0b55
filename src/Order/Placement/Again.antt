-- ===== src/Order/Placement/Again.antt =====
-- A checkout under a key that has an order (services/order-service/src/main.ts, `createMockOrder`).
use kuajing.Base.{◌≡◌, ◌≢◌, ◌⊎◌, refl, sym, subst, true, false, some, List, arith, inl, inr, find}
use kuajing.Base.Text.{Text, text_eq_iff, is_blank}
use kuajing.Base.Failure.{Failure, http, Result, ok, err, Result-cases, idempotency_conflict}
use kuajing.Inventory.Types.{ReservationResult}
use kuajing.Inventory.Contract.{InventoryService}
use kuajing.Order.Service.{Network}
use kuajing.Order.Checkout.{cancel_inventory, reserve_inventory}
use kuajing.Order.Trusted.{Checkout}
use kuajing.Order.Orders.{Mode, Order, OrderRow, Orders, Setting, order_of_row}
use kuajing.Order.Placement.{
  is_keyed, assert_checkout_replay, store_order, attach_payment, check_replay, inventory_mode,
  of_order, after_failure, finish, place_order,
}

module _ (s : InventoryService) (net : Network) (env : Setting) (checkout : Checkout) (key : Text)
    (st : s.Store) (db : Orders) {row : OrderRow}
    (known : find (is_keyed env.store_id key) db.orders ≡ some row) where
  -- A key that has an order for another checkout is refused as an idempotency conflict, before
  -- anything is reserved or stored, if the database answers.
  pub place_order_conflict :
      {t : Text}
      → env.replay_answered ≡ true
      → row.request_fingerprint ≡ some t
      → is_blank t ≡ false
      → t ≢ env.fingerprint checkout
      → place_order s net env checkout key st db ≡ (err (http idempotency_conflict), (st, db))
  unfolding place_order check_replay assert_checkout_replay
  place_order_conflict {t} there has_print filled other =
      ground (arith, text_eq_iff t (env.fingerprint checkout))

  -- The order that a repeated checkout finds.
  abbrev pub IsFound : Result Order → Type 0
  IsFound (ok order) = (order.order_id ≡ row.id) × (order.total_minor ≡ row.total_minor)
  IsFound (err e) = Unit

  store_order-found :
      (mode : Mode) (rs : List ReservationResult)
      → env.storage_answered ≡ true
      → (store_order env checkout key mode rs db ≡ (ok (order_of_row env row), db))
        ⊎ (store_order env checkout key mode rs db ≡ (err (http idempotency_conflict), db))
  unfolding store_order assert_checkout_replay
  store_order-found mode rs h = ground (arith, known)

  abbrev Kept : Result Order × (s.Store × Orders) → Type 0
  Kept p = IsFound p.0 × (p.1.1 ≡ db)

  finish-same :
      (rs : List ReservationResult) (st' : s.Store)
      → store_order env checkout key (inventory_mode env rs) rs db ≡ (ok (order_of_row env row), db)
      → finish s net env checkout key rs st' db
        ≡ (ok (attach_payment env (order_of_row env row)), (st', db))
  unfolding finish
  finish-same rs st' e = rw (e, finish) (rw e refl)

  finish-other :
      (rs : List ReservationResult) (st' : s.Store)
      → store_order env checkout key (inventory_mode env rs) rs db
        ≡ (err (http idempotency_conflict), db)
      → finish s net env checkout key rs st' db ≡ (
        err (http idempotency_conflict),
        (cancel_inventory s net (of_order env.order_id rs) st', db),
      )
  unfolding finish after_failure
  finish-other rs st' e = rw (e, finish) (rw e refl)

  attached : IsFound (ok (attach_payment env (order_of_row env row)))
  attached = ground arith

  finish-found :
      (rs : List ReservationResult) (st' : s.Store)
      → env.storage_answered ≡ true
      → Kept (finish s net env checkout key rs st' db)
  finish-found rs st' h = elim (store_order-found (inventory_mode env rs) rs h) [
    | inl e ↦ subst Kept (sym (finish-same rs st' e)) (attached, refl)
    | inr e ↦ subst Kept (sym (finish-other rs st' e)) (tt, refl)
  ]

  abbrev reserving : Result (List ReservationResult) × s.Store
  reserving = reserve_inventory s net key env.order_id checkout.lines st

  place_order-cases :
      ((e : Failure) × (st' : s.Store) × (place_order s net env checkout key st db
          ≡ (err e, (st', db))))
      ⊎ ((rs : List ReservationResult) × (place_order s net env checkout key st db
            ≡ finish s net env checkout key rs reserving.1 db))
  unfolding place_order
  place_order-cases = elim (Result-cases (check_replay env checkout key db)) [
    | inr (e, refused) ↦ inl (e, st, ground arith)
    | inl (u, passed) ↦ elim (Result-cases reserving.0) [
      | inr (e, refused) ↦ inl (e, reserving.1, ground arith)
      | inl (rs, accepted) ↦ inr (rs, ground arith)
    ]
  ]

  -- A checkout under a key that has an order makes no other: whatever it answers, the orders stay
  -- as they are, and an order that it answers is the one of the key, with its total. The database
  -- answers when the order is to be stored.
  pub place_order_once :
      env.storage_answered ≡ true
      → IsFound (place_order s net env checkout key st db).0
        × ((place_order s net env checkout key st db).1.1 ≡ db)
  place_order_once h = elim place_order-cases [
    | inl (e, st', same) ↦ subst Kept (sym same) (tt, refl)
    | inr (rs, same) ↦ subst Kept (sym same) (finish-found rs reserving.1 h)
  ]
