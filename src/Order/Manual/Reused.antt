-- ===== src/Order/Manual/Reused.antt =====
-- A compensation under a key that an earlier one used
-- (services/order-service/src/main.ts, `manualQueueInventoryCompensation`).
use kuajing.Base.{ℕ, ◌+◌, ◌≤◌, ◌≡◌, ◌∙◌, refl, true, Option, some, List, [], ◌∷◌, arith}
use kuajing.Base.Text.{Text}
use kuajing.Base.Failure.{ok}
use kuajing.Order.State.{OrderState, is_exception_state}
use kuajing.Order.Request.{ManualInput}
use kuajing.Compensation.Tasks.{Reservation, TaskRow}
use kuajing.Compensation.Tasks.Rows.{HasNone, enqueue-HasNone}
use kuajing.Order.Payments.{get_order_state, get_order_reservations}
use kuajing.Order.Payments.Terminal.{get_order_state-rewrite}
use kuajing.Order.Manual.{
  Ledger, Drawn, task_of, queue_tasks, awaiting, manual_handler,
  manual_queue_inventory_compensation,
}
use kuajing.Order.Manual.Queued.{found, found-enqueue}

module _ (store_id order_id : Text) (input : ManualInput) (key : Text) (env : Drawn) where
  abbrev at : ℕ → List TaskRow → Option TaskRow
  at = found store_id order_id input key env

  -- Each of the reservations has a task under the key with its index.
  abbrev pub AllUsed : ℕ → List Reservation → List TaskRow → Type 0
  AllUsed index [] ts = Unit {0}
  AllUsed index (r ∷ rs) ts = ((t : TaskRow) × (at index ts ≡ some t)) × AllUsed (index + 1) rs ts

  queue_tasks-HasNone :
      (index : ℕ) (rs : List Reservation) (before ts : List TaskRow)
      → ((j : ℕ) → index ≤ j → at j ts ≡ at j before)
      → AllUsed index rs before
      → HasNone order_id ts
      → HasNone order_id (queue_tasks store_id order_id input key env index rs ts)
  unfolding queue_tasks
  queue_tasks-HasNone index [] before ts same used none_yet = none_yet
  queue_tasks-HasNone index (r ∷ rs) before ts same ((t, there), used) none_yet =
      queue_tasks-HasNone (index + 1) rs before _
        (λ j h.
          found-enqueue store_id order_id input key env j index r ts (λ e. omega (arith, h, e))
          ∙ same j (omega (arith, h)))
        used
        (enqueue-HasNone store_id (env.task_id index) env.next_run_at env.correlation_id
          (task_of order_id input key index r) ts order_id (same index (omega arith) ∙ there)
          none_yet)

  -- The key of a manual compensation does not name the order. If an earlier one has left a task
  -- under each key that a compensation of another order needs, and that order has no task, the
  -- compensation is accepted and answers that it is queued, and the order awaits it; and yet no task
  -- is of the order.
  pub manual_key_reused :
      (db : Ledger) (current : OrderState) (rs : List Reservation)
      → get_order_state store_id order_id db.tables ≡ ok current
      → is_exception_state current.status current.inventory_status ≡ true
      → get_order_reservations store_id order_id db.tables ≡ ok rs
      → AllUsed 0 rs db.tables.tasks
      → HasNone order_id db.tables.tasks
      → let (answer, after) =
          manual_queue_inventory_compensation store_id order_id input key env db in
        (answer ≡ ok (record { state = awaiting input.action; compensation_queued = true }))
        × (get_order_state store_id order_id after.tables ≡ ok (awaiting input.action))
        × HasNone order_id after.tables.tasks
  unfolding manual_queue_inventory_compensation manual_handler
  manual_key_reused db current rs found_state exceptional lines used none_yet =
      rw (found_state, manual_queue_inventory_compensation)
        (rw (exceptional, lines)
          (
            refl,
            get_order_state-rewrite store_id order_id (awaiting input.action) _ db.tables
                found_state,
            queue_tasks-HasNone 0 rs db.tables.tasks db.tables.tasks (λ j h. refl) used none_yet,
          ))
