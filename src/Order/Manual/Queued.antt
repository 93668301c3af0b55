-- ===== src/Order/Manual/Queued.antt =====
-- What the compensation that an administrator asks for leaves (services/order-service/src/main.ts).
use kuajing.Base.{ℕ, ◌+◌, ◌≡◌, ◌≢◌, true, Option, List, [], ◌∷◌, find}
use kuajing.Base.Text.{Text}
use kuajing.Base.Failure.{ok}
use kuajing.Order.State.{Action, confirm, cancel, OrderState, is_exception_state}
use kuajing.Order.Request.{ManualInput}
use kuajing.Order.Checkout.{line_key}
use kuajing.Order.Checkout.Cancelling.{line_key-injective}
use kuajing.Compensation.Tasks.{
  Reservation, TaskType, inventory_confirm, inventory_cancel, TaskRow, is_task, enqueue,
}
use kuajing.Compensation.Tasks.Rows.{IsQueuedFor, find-enqueue_other}
use kuajing.Order.Payments.{Transition, get_order_state, get_order_reservations}
use kuajing.Order.Manual.{Ledger, Drawn, number_of, task_of, queue_tasks, awaiting, audit_row}

module _ (store_id order_id : Text) (input : ManualInput) (key : Text) (env : Drawn) where
  -- What a task is asked to do.
  abbrev pub asked_type : Action → TaskType
  asked_type confirm = inventory_confirm
  asked_type cancel = inventory_cancel

  abbrev queued_tasks : ℕ → List Reservation → List TaskRow → List TaskRow
  queued_tasks = queue_tasks store_id order_id input key env

  abbrev pub found : ℕ → List TaskRow → Option TaskRow
  found index ts = find (is_task store_id (line_key key index)) ts

  other_key : (i j : ℕ) → i ≢ j → line_key key i ≢ line_key key j
  other_key i j differ e = differ (line_key-injective key i j e)

  pub found-enqueue :
      (i index : ℕ) (r : Reservation) (ts : List TaskRow)
      → index ≢ i
      → found i (
          enqueue store_id
            (env.task_id index)
            env.next_run_at
            env.correlation_id
            (task_of order_id input key index r)
            ts)
        ≡ found i ts
  found-enqueue i index r ts differ =
      find-enqueue_other store_id (env.task_id index) env.next_run_at env.correlation_id
        (task_of order_id input key index r) ts (line_key key i) (other_key index i differ)

  -- A task for each of the reservations waits, under the key with the index of the reservation, and
  -- with the reservation; a task whose key is new is of the order and the action of the request.
  abbrev pub AllQueued : ℕ → List Reservation → List TaskRow → List TaskRow → Type 0
  AllQueued index [] before after = Unit {0}
  AllQueued index (r ∷ rs) before after =
      IsQueuedFor store_id (line_key key index) (asked_type input.action) order_id r before after
      × AllQueued (index + 1) rs before after

  -- What a compensation that was accepted leaves.
  abbrev pub IsQueued : Ledger → Transition → Ledger → Type 0
  IsQueued before t after =
      (current : OrderState) × (rs : List Reservation) × (get_order_state store_id order_id
          before.tables
        ≡ ok current)
      × (is_exception_state current.status current.inventory_status ≡ true)
      × (get_order_reservations store_id order_id before.tables ≡ ok rs)
      × AllQueued 0 rs before.tables.tasks after.tables.tasks
      × (t.state ≡ awaiting input.action)
      × (get_order_state store_id order_id after.tables ≡ ok (awaiting input.action))
      × (after.audit_rows
          ≡ audit_row store_id order_id input env (number_of rs) current ∷ before.audit_rows)

  abbrev IsWritten : Ledger → Transition × Ledger → Type 0
  IsWritten before (t, after) = IsQueued before t after
