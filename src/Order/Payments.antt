-- ===== src/Order/Payments.antt =====
-- The payment callbacks of services/order-service/src/main.ts on orders kept in PostgreSQL, when
-- its database answers: `transitionPayment` with what it calls. What the inventory service answers
-- to a call, and whether the row of a compensation task could be written, are arguments; what the
-- calls do there is the matter of Inventory.
pub mod Terminal
mod Tests
pub mod Queue
use kuajing.Base.{
  ℕ, Bool, true, false, ◌&&◌, ◌||◌, not, Option, none, some, List, [], ◌∷◌, ◌++◌, find, map,
  if◌then◌else◌,
}
use kuajing.Base.Text.{Text, text_eq, codes}
use kuajing.Base.Failure.{
  http, Result, ok, err, ◌>>=◌, ◌>>◌, conflict, not_found, validation_failed, committed,
}
use kuajing.Order.State.{
  Status, paid, cancelled, compensating, PaymentStatus, InventoryStatus, compensation_pending,
  confirmed, OrderState, Action, confirm, cancel, is_final_transition, desired_state_for_action,
  assert_order_transition,
}
use kuajing.Compensation.Tasks.{
  TaskType, inventory_confirm, inventory_cancel, TaskInput, TaskRow, enqueue, Reservation,
}

-- A row of `orders`, as far as the callbacks read it.
pub record OrderRow : Type 0 where
  pub id : Text
  pub store_id : Text
  pub state : OrderState

-- A row of `order_lines`.
pub record LineRow : Type 0 where
  pub store_id : Text
  pub order_id : Text
  pub sku_id : Text
  pub qty : ℕ
  pub inventory_reservation_key_snapshot : Option Text

pub record Database : Type 0 where
  pub orders : List OrderRow
  -- in the order of their ids, as `ORDER BY id ASC` reads them
  pub order_lines : List LineRow
  pub tasks : List TaskRow

-- `PaymentTransitionResult`, less the id and the storage mode.
pub record Transition : Type 0 where
  pub state : OrderState
  pub compensation_queued : Bool

abbrev pub is_order : Text → Text → OrderRow → Bool
is_order store_id order_id o = text_eq o.store_id store_id && text_eq o.id order_id

-- `getOrderState`
unfoldable pub get_order_state : Text → Text → Database → Result OrderState
get_order_state store_id order_id db = elim (find (is_order store_id order_id) db.orders) [
  | none ↦ err (http not_found)
  | some o ↦ ok o.state
]

-- The lines of the order as reservations; a line with no reservation key fails the request.
unfoldable pub line_reservations : Text → Text → List LineRow → Result (List Reservation)
line_reservations store_id order_id [] = ok []
line_reservations store_id order_id (l ∷ ls) =
    let rest = line_reservations store_id order_id ls in
    if text_eq l.store_id store_id && text_eq l.order_id order_id
    then elim l.inventory_reservation_key_snapshot [
      | none ↦ err (http validation_failed)
      | some [] ↦ err (http validation_failed)
      | some (c ∷ key) ↦ do
        rs ← rest
        ok ((record { sku_id = l.sku_id; qty = l.qty; idempotency_key = c ∷ key }) ∷ rs)
    ]
    else rest

-- `getOrderReservations`: an order with no lines is not found.
unfoldable pub get_order_reservations : Text → Text → Database → Result (List Reservation)
get_order_reservations store_id order_id db = do
  rs ← line_reservations store_id order_id db.order_lines
  elim rs [ [] ↦ err (http not_found) | r ∷ rest ↦ ok (r ∷ rest) ]

abbrev pub task_type : Action → TaskType
task_type confirm = inventory_confirm
task_type cancel = inventory_cancel

abbrev pub action_name : Action → Text
action_name confirm = codes "confirm"
action_name cancel = codes "cancel"

-- `${reservation.idempotencyKey}:compensation:${action}`
abbrev pub task_key : Action → Reservation → Text
task_key action r = r.idempotency_key ++ (codes ":compensation:" ++ action_name action)

-- What the services around answer while one callback runs.
pub record Answers : Type 0 where
  -- whether the inventory service accepts the call for a reservation
  pub accepts : Reservation → Bool
  -- whether the compensation task of a reservation can be written
  pub stores : Reservation → Bool
  -- the id and the time for its row
  pub task_id : Reservation → Text
  pub next_run_at : ℕ
  pub last_error : Text
  pub correlation_id : Text

-- `enqueueInventoryCompensation`: a failed write is swallowed.
pub enqueue_inventory_compensation :
    Text → Text → Action → Answers → Reservation → List TaskRow → List TaskRow
enqueue_inventory_compensation store_id order_id action env r tasks =
    let input : TaskInput = record {
      task_type = task_type action;
      aggregate_id = order_id;
      idempotency_key = task_key action r;
      reservation = r;
      last_error = env.last_error;
    } in
    let stored = enqueue store_id (env.task_id r) env.next_run_at env.correlation_id input tasks in
    if env.stores r then stored else tasks

-- `applyInventoryTransition` with `persistCompensation`: true if any call failed.
pub apply_inventory_transition :
    Text → Text → Action → Answers → List Reservation → List TaskRow → Bool × List TaskRow
apply_inventory_transition store_id order_id action env [] tasks = (false, tasks)
apply_inventory_transition store_id order_id action env (r ∷ rs) tasks =
    let queued = enqueue_inventory_compensation store_id order_id action env r tasks in
    let (any, tasks') =
      apply_inventory_transition store_id order_id action env rs
        (if env.accepts r then tasks else queued) in
    (not (env.accepts r) || any, tasks')

-- The state that a callback asks for, once it is known whether a call failed.
abbrev pub next_state : Action → Bool → OrderState
next_state action false = desired_state_for_action action
next_state action true = record (desired_state_for_action action) {
  status = compensating;
  inventory_status = compensation_pending;
}

-- `inventoryStatus === "compensation_pending"`
abbrev pub is_pending : InventoryStatus → Bool
is_pending compensation_pending = true
is_pending _ = false

abbrev pub rewrite_order : Text → Text → OrderState → OrderRow → OrderRow
rewrite_order store_id order_id next o =
    if is_order store_id order_id o then record o { state = next } else o

-- The handler of `transitionOrder`.
pub transition_handler : Text → Text → OrderState → Database → Result (Transition × Database)
transition_handler store_id order_id next db = do
  current ← get_order_state store_id order_id db
  assert_order_transition current next
  ok (
    record { state = next; compensation_queued = is_pending next.inventory_status },
    record db { orders = map (rewrite_order store_id order_id next) db.orders },
  )

-- `transitionOrder` inside its transaction.
pub transition_order : Text → Text → OrderState → Database → Result Transition × Database
transition_order store_id order_id next db =
    committed (transition_handler store_id order_id next db) db

-- The second half of `transitionPayment`: the calls, and the move that they allow.
pub settle_payment :
    Text → Text → Action → Answers → List Reservation → Database → Result Transition × Database
settle_payment store_id order_id action env rs db =
    let (queued, tasks) = apply_inventory_transition store_id order_id action env rs db.tasks in
    transition_order store_id order_id (next_state action queued) (record db { tasks = tasks })

-- The first half of `transitionPayment`: the reservations that the callback has to settle, or none
-- if the order is there already.
pub check_payment :
    Text → Text → Action → OrderState → Database → Result (Option (List Reservation))
check_payment store_id order_id action current db =
    let todo = (do
      assert_order_transition current (desired_state_for_action action)
      rs ← get_order_reservations store_id order_id db
      ok (some rs)) in
    if is_final_transition current action then ok none else todo

-- `transitionPayment`
pub transition_payment : Text → Text → Action → Answers → Database → Result Transition × Database
transition_payment store_id order_id action env db = elim (get_order_state store_id order_id db) [
  | err e ↦ (err e, db)
  | ok current ↦ elim (check_payment store_id order_id action current db) [
    | err e ↦ (err e, db)
    | ok none ↦ (ok (record { state = current; compensation_queued = false }), db)
    | ok (some rs) ↦ settle_payment store_id order_id action env rs db
  ]
]
