-- ===== src/Order/Payments/Terminal.antt =====
-- What a payment callback does to the state of an order
-- (services/order-service/src/main.ts, `transitionPayment`).
use kuajing.Base.{
  ◌≡◌, refl, Bool, true, false, none, some, List, [], ◌∷◌, arith, inl, inr, ◌⊎◌, find, map,
  Option-cases, Bool-cases, ap, subst, ◌∙◌,
}
use kuajing.Base.Text.{Text}
use kuajing.Base.Failure.{http, ok, err, conflict}
use kuajing.Order.State.{
  Status, PaymentStatus, InventoryStatus, OrderState, Action, confirm, cancel, is_final_transition,
  desired_state_for_action, assert_order_transition, compensating, IsLive,
}
use kuajing.Order.Payments.{
  Answers, Database, OrderRow, get_order_state, get_order_reservations, check_payment,
  transition_payment, settle_payment, apply_inventory_transition, transition_order,
  transition_handler, next_state, is_pending, rewrite_order, is_order,
}
use kuajing.Order.Payments.Queue.{any_refused, apply_inventory_transition_queued}
use kuajing.Compensation.Tasks.{Reservation, TaskRow}

-- A paid or cancelled order has nothing to settle for a callback.
check_payment-terminal :
    (store_id order_id : Text) (action : Action) (current : OrderState) (db : Database)
    → (current.status ≡ Status.paid) ⊎ (current.status ≡ Status.cancelled)
    → (check_payment store_id order_id action current db ≡ ok none)
      ⊎ (check_payment store_id order_id action current db ≡ err (http conflict))
unfolding check_payment is_final_transition assert_order_transition
check_payment-terminal store_id order_id confirm current db h = ground arith
check_payment-terminal store_id order_id cancel current db h = ground arith

module _ (store_id order_id : Text) (action : Action) (env : Answers) (db : Database)
    {current : OrderState} where
  -- A callback for an order that is paid or cancelled changes nothing in the database: neither the
  -- order nor the tasks; it repeats the state, or is a conflict.
  pub transition_payment_terminal :
      get_order_state store_id order_id db ≡ ok current
      → (current.status ≡ Status.paid) ⊎ (current.status ≡ Status.cancelled)
      → (transition_payment store_id order_id action env db
          ≡ (ok (record { state = current; compensation_queued = false }), db))
        ⊎ (transition_payment store_id order_id action env db ≡ (err (http conflict), db))
  unfolding transition_payment
  transition_payment_terminal found ended =
      elim (check_payment-terminal store_id order_id action current db ended) [
        | inl e ↦ inl (ground arith)
        | inr e ↦ inr (ground arith)
      ]

check_payment-live :
    (store_id order_id : Text) (action : Action) (current : OrderState) (db : Database)
    {rs : List Reservation}
    → IsLive current
    → get_order_reservations store_id order_id db ≡ ok rs
    → check_payment store_id order_id action current db ≡ ok (some rs)
unfolding check_payment is_final_transition assert_order_transition
check_payment-live store_id order_id confirm current db h e = ground arith
check_payment-live store_id order_id cancel current db h e = ground arith

assert_order_transition-next_state :
    (current : OrderState) (action : Action) (queued : Bool)
    → IsLive current
    → assert_order_transition current (next_state action queued) ≡ ok tt
unfolding assert_order_transition
assert_order_transition-next_state current confirm true h = ground arith
assert_order_transition-next_state current confirm false h = ground arith
assert_order_transition-next_state current cancel true h = ground arith
assert_order_transition-next_state current cancel false h = ground arith

is_pending-next_state :
    (action : Action) (queued : Bool)
    → is_pending (next_state action queued).inventory_status ≡ queued
is_pending-next_state confirm true = refl
is_pending-next_state confirm false = refl
is_pending-next_state cancel true = refl
is_pending-next_state cancel false = refl

find-rewrite_order :
    (store_id order_id : Text) (next : OrderState) (os : List OrderRow) {o : OrderRow}
    → find (is_order store_id order_id) os ≡ some o
    → find (is_order store_id order_id) (map (rewrite_order store_id order_id next) os)
      ≡ some (record o { state = next })
find-rewrite_order store_id order_id next [] e = cc
find-rewrite_order store_id order_id next (x ∷ os) {o} e =
    elim (Bool-cases (is_order store_id order_id x)) [
      | inl t ↦ ground arith
      | inr t ↦ ground (arith, find-rewrite_order store_id order_id next os {o = o})
    ]

get_order_state-found :
    (store_id order_id : Text) (db : Database) {current : OrderState}
    → get_order_state store_id order_id db ≡ ok current
    → (o : OrderRow) × (find (is_order store_id order_id) db.orders ≡ some o)
unfolding get_order_state
get_order_state-found store_id order_id db e =
    elim (Option-cases (find (is_order store_id order_id) db.orders)) [
      | inl f ↦ absurd (ground arith)
      | inr (o, f) ↦ (o, f)
    ]

-- The state that was written is the one that is read.
pub get_order_state-rewrite :
    (store_id order_id : Text) (next : OrderState) (tasks : List TaskRow) (db : Database)
    {current : OrderState}
    → get_order_state store_id order_id db ≡ ok current
    → get_order_state store_id order_id
        (record db { orders = map (rewrite_order store_id order_id next) db.orders; tasks = tasks })
      ≡ ok next
unfolding get_order_state
get_order_state-rewrite store_id order_id next tasks db e =
    let (o, f) = get_order_state-found store_id order_id db e in
    rw (find-rewrite_order store_id order_id next db.orders f, get_order_state) refl

module _ (store_id order_id : Text) (action : Action) (env : Answers) (db : Database)
    (rs : List Reservation) where
  abbrev pub queued : Bool
  queued = (apply_inventory_transition store_id order_id action env rs db.tasks).0

  abbrev after_calls : Database
  after_calls = record db {
    tasks = (apply_inventory_transition store_id order_id action env rs db.tasks).1;
  }

  transition_payment-settles :
      (current : OrderState)
      → get_order_state store_id order_id db ≡ ok current
      → IsLive current
      → get_order_reservations store_id order_id db ≡ ok rs
      → transition_payment store_id order_id action env db
        ≡ transition_order store_id order_id (next_state action queued) after_calls
  unfolding transition_payment settle_payment
  transition_payment-settles current found live lines =
      ground (arith, check_payment-live store_id order_id action current db live lines)

  transition_order-live :
      (current next : OrderState) (db' : Database)
      → get_order_state store_id order_id db' ≡ ok current
      → assert_order_transition current next ≡ ok tt
      → transition_order store_id order_id next db' ≡ (
        ok (record { state = next; compensation_queued = is_pending next.inventory_status }),
        record db' { orders = map (rewrite_order store_id order_id next) db'.orders },
      )
  unfolding transition_order transition_handler
  transition_order-live current next db' found passes = ground arith

  found_after_calls :
      (current : OrderState)
      → get_order_state store_id order_id db ≡ ok current
      → get_order_state store_id order_id after_calls ≡ ok current
  unfolding get_order_state
  found_after_calls current found = found

  state_after :
      (current next : OrderState) (db' : Database)
      → get_order_state store_id order_id db' ≡ ok current
      → get_order_state store_id order_id
          (record db' { orders = map (rewrite_order store_id order_id next) db'.orders })
        ≡ ok next
  unfolding get_order_state
  state_after current next db' found =
      let (o, e) = get_order_state-found store_id order_id db' found in
      ground (arith, find-rewrite_order store_id order_id next db'.orders {o = o} e)

  -- The callback moves the order by what became of its calls.
  transition_payment-queued :
      (current : OrderState)
      → get_order_state store_id order_id db ≡ ok current
      → IsLive current
      → get_order_reservations store_id order_id db ≡ ok rs
      → ((transition_payment store_id order_id action env db).0
          ≡ ok (record { state = next_state action queued; compensation_queued = queued }))
        × (get_order_state store_id order_id (transition_payment store_id order_id action env db).1
            ≡ ok (next_state action queued))
  transition_payment-queued current found live lines = rw whole (
    ap (λ q. ok (record { state = next_state action queued; compensation_queued = q }))
        (is_pending-next_state action queued),
    state_after current (next_state action queued) after_calls found',
  )
    where
      found' : get_order_state store_id order_id after_calls ≡ ok current
      found' = found_after_calls current found

      whole : transition_payment store_id order_id action env db ≡ (
        ok (record {
          state = next_state action queued;
          compensation_queued = is_pending (next_state action queued).inventory_status;
        }),
        record after_calls {
          orders =
              map (rewrite_order store_id order_id (next_state action queued)) after_calls.orders;
        },
      )
      whole =
          transition_payment-settles current found live lines
          ∙ transition_order-live current (next_state action queued) after_calls found'
              (assert_order_transition-next_state current action queued live)

-- What each callback makes of an order, by whether the inventory service refused one of its calls.
abbrev pub outcome : Action → Bool → OrderState
outcome confirm false = record {
  status = Status.paid;
  payment_status = PaymentStatus.paid;
  inventory_status = InventoryStatus.confirmed;
}
outcome cancel false = record {
  status = Status.cancelled;
  payment_status = PaymentStatus.cancelled;
  inventory_status = InventoryStatus.cancelled;
}
outcome confirm true = record {
  status = Status.compensating;
  payment_status = PaymentStatus.paid;
  inventory_status = InventoryStatus.compensation_pending;
}
outcome cancel true = record {
  status = Status.compensating;
  payment_status = PaymentStatus.cancelled;
  inventory_status = InventoryStatus.compensation_pending;
}

next_state-outcome :
    (action : Action) (refused : Bool) → next_state action refused ≡ outcome action refused
next_state-outcome confirm false = refl
next_state-outcome cancel false = refl
next_state-outcome confirm true = refl
next_state-outcome cancel true = refl

-- A callback for an order that awaits its payment, or the compensation of its stock, and has its
-- reservations, succeeds. If the inventory service accepts every call, the order is paid with its
-- stock confirmed, or cancelled with its stock cancelled, as the callback asks; if not, it awaits
-- the compensation of its stock with the payment paid or cancelled, and the result says so.
pub transition_payment_live :
    (store_id order_id : Text) (action : Action) (env : Answers) (db : Database)
    (rs : List Reservation) (current : OrderState)
    → get_order_state store_id order_id db ≡ ok current
    → IsLive current
    → get_order_reservations store_id order_id db ≡ ok rs
    → let refused = any_refused store_id order_id action env rs in
      ((transition_payment store_id order_id action env db).0
        ≡ ok (record { state = outcome action refused; compensation_queued = refused }))
      × (get_order_state store_id order_id (transition_payment store_id order_id action env db).1
          ≡ ok (outcome action refused))
transition_payment_live store_id order_id action env db rs current found live lines =
    rw (← next_state-outcome action (any_refused store_id order_id action env rs)) (
      subst
        (λ b.
          ((transition_payment store_id order_id action env db).0
            ≡ ok (record { state = next_state action b; compensation_queued = b }))
          × (get_order_state store_id order_id
                (transition_payment store_id order_id action env db).1
              ≡ ok (next_state action b)))
        (apply_inventory_transition_queued store_id order_id action env rs db.tasks)
        (transition_payment-queued store_id order_id action env db rs current found live lines))

-- An order whose payment was taken, and whose stock is still to be compensated, is cancelled by a
-- later cancel callback, if the inventory service accepts its calls.
pub cancel_after_payment :
    (store_id order_id : Text) (env : Answers) (db : Database) (rs : List Reservation)
    (current : OrderState)
    → get_order_state store_id order_id db ≡ ok current
    → current.status ≡ compensating
    → current.payment_status ≡ PaymentStatus.paid
    → get_order_reservations store_id order_id db ≡ ok rs
    → any_refused store_id order_id cancel env rs ≡ false
    → get_order_state store_id order_id (transition_payment store_id order_id cancel env db).1
      ≡ ok (desired_state_for_action cancel)
cancel_after_payment store_id order_id env db rs current found waits paid lines none_refused =
    (transition_payment_live store_id order_id cancel env db rs current found (inr waits) lines).1
    ∙ ap (λ q. ok (outcome cancel q)) none_refused
