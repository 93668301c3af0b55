-- ===== src/Compensation/Tasks.antt =====
-- The rows of `compensation_tasks`, and the upsert of services/order-service/src/main.ts.
pub mod Rows
pub mod Upsert
use kuajing.Base.{
  ℕ, Bool, true, false, ◌&&◌, List, [], ◌∷◌, if◌then◌else◌, Option, none, some, take,
}
use kuajing.Base.Text.{Text, text_eq}

pub data TaskType : Type 0 where
  inventory_confirm inventory_cancel : TaskType

pub data TaskStatus : Type 0 where
  pending processing completed retrying dead_lettered : TaskStatus

-- `OrderLineReservation`, with no warehouse: PostgreSQL orders name none.
pub record Reservation : Type 0 where
  pub sku_id : Text
  pub qty : ℕ
  pub idempotency_key : Text

-- `CompensationTaskInput`; the payload is the order, the action and the reservation.
pub record TaskInput : Type 0 where
  pub task_type : TaskType
  pub aggregate_id : Text
  pub idempotency_key : Text
  pub reservation : Reservation
  pub last_error : Text

pub record TaskRow : Type 0 where
  pub id : Text
  pub store_id : Text
  pub task_type : TaskType
  pub aggregate_id : Text
  pub idempotency_key : Text
  pub status : TaskStatus
  pub attempt_count : ℕ
  pub max_attempts : ℕ
  pub next_run_at : ℕ
  pub last_error : Option Text
  pub correlation_id : Text
  pub reservation : Reservation

-- The row that `compensationInsertParams` describes.
abbrev pub new_task : Text → Text → ℕ → Text → TaskInput → TaskRow
new_task store_id id next_run_at correlation_id input = record {
  id = id;
  store_id = store_id;
  task_type = input.task_type;
  aggregate_id = input.aggregate_id;
  idempotency_key = input.idempotency_key;
  status = pending;
  attempt_count = 0;
  max_attempts = 8;
  next_run_at = next_run_at;
  last_error = some (take 2000 input.last_error);
  correlation_id = correlation_id;
  reservation = input.reservation;
}

abbrev pub is_task : Text → Text → TaskRow → Bool
is_task store_id key t = text_eq t.store_id store_id && text_eq t.idempotency_key key

-- `ON CONFLICT … DO UPDATE`: the attempts that were counted stay.
abbrev pub requeued : TaskRow → TaskRow → TaskRow
requeued new t = record t {
  status = pending;
  next_run_at = new.next_run_at;
  last_error = new.last_error;
  correlation_id = new.correlation_id;
  reservation = new.reservation;
}

pub upsert : TaskRow → List TaskRow → List TaskRow
upsert new [] = new ∷ []
upsert new (t ∷ ts) =
    if is_task new.store_id new.idempotency_key t then requeued new t ∷ ts else t ∷ upsert new ts

-- `insertCompensationTask` and `enqueueCompensationTask`: the INSERT of `compensationInsertSql`.
pub enqueue : Text → Text → ℕ → Text → TaskInput → List TaskRow → List TaskRow
enqueue store_id id next_run_at correlation_id input =
    upsert (new_task store_id id next_run_at correlation_id input)
