-- ===== src/Order/Manual.antt =====
-- The compensation that an administrator asks for: `manualCompensation` of the controller and
-- `manualQueueInventoryCompensation` with what it writes (services/order-service/src/main.ts), when
-- the database answers.
pub mod Queued
pub mod Reused
mod Tests
use kuajing.Base.{
  ℕ, ◌+◌, ◌≡◌, Bool, true, false, not, Option, none, some, List, [], ◌∷◌, ◌++◌, map, if◌then◌else◌,
}
use kuajing.Base.Text.{Text, codes}
use kuajing.Base.Failure.{http, Result, ok, err, ◌>>=◌, ◌>>◌, throw_if, conflict, committed}
use kuajing.Order.State.{
  Action, confirm, cancel, PaymentStatus, OrderState, compensating, compensation_pending,
  is_exception_state,
}
use kuajing.Order.Request.{
  ManualRequest, ManualInput, normalize_order_id, normalize_admin_idempotency_key,
  normalize_manual_compensation,
}
use kuajing.Order.Checkout.{line_key}
use kuajing.Compensation.Tasks.{Reservation, TaskInput, TaskRow, enqueue}
use kuajing.Order.Payments.{
  Transition, Database, get_order_state, get_order_reservations, task_type, action_name,
  rewrite_order,
}

-- `snapshotOrderState`
pub record Snapshot : Type 0 where
  pub state : OrderState
  pub failure_count : ℕ

-- A row of `order_audit_events`, less its id.
pub record AuditRow : Type 0 where
  pub store_id : Text
  pub order_id : Text
  pub action : Text
  pub actor_id : Text
  pub reason : Text
  pub old_value : Snapshot
  pub new_value : Snapshot
  pub correlation_id : Text

pub record Ledger : Type 0 where
  pub tables : Database
  pub audit_rows : List AuditRow

-- The ids, the time and the correlation id that one request draws.
pub record Drawn : Type 0 where
  pub task_id : ℕ → Text
  pub next_run_at : ℕ
  pub correlation_id : Text

abbrev pub number_of : List Reservation → ℕ
number_of [] = 0
number_of (r ∷ rs) = number_of rs + 1

-- `manual ${input.action} compensation requested: ${input.reason}`
abbrev pub request_note : ManualInput → Text
request_note input =
    codes "manual "
    ++ (action_name input.action ++ (codes " compensation requested: " ++ input.reason))

abbrev pub task_of : Text → ManualInput → Text → ℕ → Reservation → TaskInput
task_of order_id input key index r = record {
  task_type = task_type input.action;
  aggregate_id = order_id;
  idempotency_key = line_key key index;
  reservation = r;
  last_error = request_note input;
}

-- The tasks of the reservations from an index on.
pub queue_tasks :
    Text → Text → ManualInput → Text → Drawn → ℕ → List Reservation → List TaskRow → List TaskRow
queue_tasks store_id order_id input key env index [] tasks = tasks
queue_tasks store_id order_id input key env index (r ∷ rs) tasks =
    queue_tasks store_id order_id input key env (index + 1) rs (
      enqueue store_id (env.task_id index) env.next_run_at env.correlation_id
        (task_of order_id input key index r) tasks)

abbrev pub payment_of : Action → PaymentStatus
payment_of confirm = PaymentStatus.paid
payment_of cancel = PaymentStatus.cancelled

abbrev pub awaiting : Action → OrderState
awaiting action = record {
  status = compensating;
  payment_status = payment_of action;
  inventory_status = compensation_pending;
}

abbrev pub audit_row : Text → Text → ManualInput → Drawn → ℕ → OrderState → AuditRow
audit_row store_id order_id input env count current = record {
  store_id = store_id;
  order_id = order_id;
  action = codes "manual_inventory_" ++ (action_name input.action ++ codes "_compensation");
  actor_id = input.actor_id;
  reason = input.reason;
  old_value = record { state = current; failure_count = count };
  new_value = record { state = awaiting input.action; failure_count = count };
  correlation_id = env.correlation_id;
}

-- The handler of `manualQueueInventoryCompensation`.
pub manual_handler :
    Text → Text → ManualInput → Text → Drawn → Ledger → Result (Transition × Ledger)
manual_handler store_id order_id input key env db = do
  current ← get_order_state store_id order_id db.tables
  throw_if (not (is_exception_state current.status current.inventory_status)) (http conflict)
  rs ← get_order_reservations store_id order_id db.tables
  ok (
    record { state = awaiting input.action; compensation_queued = true },
    record {
      tables = record db.tables {
        orders = map (rewrite_order store_id order_id (awaiting input.action)) db.tables.orders;
        tasks = queue_tasks store_id order_id input key env 0 rs db.tables.tasks;
      };
      audit_rows = audit_row store_id order_id input env (number_of rs) current ∷ db.audit_rows;
    },
  )

-- `manualQueueInventoryCompensation` inside its transaction.
pub manual_queue_inventory_compensation :
    Text → Text → ManualInput → Text → Drawn → Ledger → Result Transition × Ledger
manual_queue_inventory_compensation store_id order_id input key env db =
    committed (manual_handler store_id order_id input key env db) db

abbrev pub either : Option Text → Option Text → Option Text
either none b = b
either (some a) b = some a

-- What the request gives: the order, the key and the action.
pub read_manual :
    Option Text → Option Text → Option Text → ManualRequest → Result (Text × Text × ManualInput)
read_manual id key_header actor_header body = do
  order_id ← normalize_order_id id
  key ← normalize_admin_idempotency_key key_header
  input ← normalize_manual_compensation body actor_header
  ok (order_id, key, input)

-- `manualCompensation` of the controller; the second of two key headers counts if the first is
-- missing.
pub manual_compensation :
    Text
    → Option Text
    → Option Text
    → Option Text
    → Option Text
    → ManualRequest
    → Drawn
    → Ledger
    → Result Transition × Ledger
manual_compensation store_id id key_header other_header actor_header body env db =
    elim (read_manual id (either key_header other_header) actor_header body) [
      | err e ↦ (err e, db)
      | ok (order_id, key, input) ↦
          manual_queue_inventory_compensation store_id order_id input key env db
    ]
