-- ===== src/Compensation/Worker.antt =====
-- `CompensationWorker` of services/worker-service/src/main.ts over the tables of tasks and of dead
-- letters. A task row that was claimed is a snapshot: the writes that follow go by its id.
pub mod Attempts
pub mod Claim
pub mod Requeued
mod Tests
use kuajing.Base.{
  ℕ, suc, ◌+◌, Bool, true, false, ◌&&◌, ◌||◌, not, Option, none, some, List, [], ◌∷◌, if◌then◌else◌,
  find, map, take, leb, ltb, ◌==◌, length, or_else,
}
use kuajing.Base.Sort.{pick, sort_by}
use kuajing.Base.Text.{is_blank, Text, text_eq, codes, trim, trimmed}
use kuajing.Base.Failure.{http, Result, ok, err, ◌>>=◌, ◌>>◌, conflict, not_found, committed}
use kuajing.Compensation.Tasks.{
  TaskType, TaskStatus, pending, processing, completed, retrying, dead_lettered, TaskRow,
  Reservation,
}
use kuajing.Compensation.Retry.{next_retry_at}

pub data LetterStatus : Type 0 where
  open_letter retrying_letter discarded : LetterStatus

-- A row of `dead_letter_tasks`.
pub record Letter : Type 0 where
  pub id : Text
  pub store_id : Text
  pub source_task_id : Option Text
  pub task_type : TaskType
  pub aggregate_id : Text
  pub status : LetterStatus
  pub failure_reason : Text
  pub correlation_id : Text
  pub reservation : Reservation
  pub handler_id : Option Text
  pub decision_note : Option Text

-- A row of `dead_letter_audit_events`.
pub record LetterAudit : Type 0 where
  pub task_id : Text
  pub actor_id : Text
  pub decision_note : Text
  pub old_status : LetterStatus
  pub new_status : LetterStatus

pub record Database : Type 0 where
  pub tasks : List TaskRow
  pub letters : List Letter
  pub audits : List LetterAudit

-- `WorkerStats`, less the time and the error of the last run.
pub record Stats : Type 0 where
  pub processed : ℕ
  pub retried : ℕ
  pub dead_lettered : ℕ

-- `status IN ('pending', 'retrying')`
abbrev pub waits : TaskStatus → Bool
waits pending = true
waits retrying = true
waits processing = false
waits completed = false
waits TaskStatus.dead_lettered = false

abbrev pub is_due : ℕ → TaskRow → Bool
is_due now t = waits t.status && leb t.next_run_at now

pub due : ℕ → List TaskRow → List TaskRow
due now ts = pick (is_due now) ts

-- `ORDER BY next_run_at ASC, created_at ASC`; the table lists the rows as they were created.
pub by_time : List TaskRow → List TaskRow
by_time ts = sort_by (λ (t : TaskRow). t.next_run_at) ts

abbrev pub among : Text → List TaskRow → Bool
among id [] = false
among id (t ∷ ts) = text_eq t.id id || among id ts

abbrev pub set_processing : List TaskRow → TaskRow → TaskRow
set_processing claimed t = if among t.id claimed then record t { status = processing } else t

-- `claimDueTasks`
pub claim_due_tasks : ℕ → ℕ → List TaskRow → List TaskRow × List TaskRow
claim_due_tasks batch_size now tasks =
    let claimed = take batch_size (by_time (due now tasks)) in
    (claimed, map (set_processing claimed) tasks)

-- `UPDATE compensation_tasks SET … WHERE id = …`
abbrev pub update_task : Text → (TaskRow → TaskRow) → TaskRow → TaskRow
update_task id change t = if text_eq t.id id then change t else t

abbrev pub complete : TaskRow → TaskRow
complete t = record t { status = completed; last_error = none }

abbrev pub give_up : ℕ → Text → TaskRow → TaskRow
give_up attempts message t = record t {
  status = TaskStatus.dead_lettered;
  attempt_count = attempts;
  last_error = some (take 2000 message);
}

abbrev pub try_later : ℕ → ℕ → Text → TaskRow → TaskRow
try_later attempts next_run_at message t = record t {
  status = retrying;
  attempt_count = attempts;
  next_run_at = next_run_at;
  last_error = some (take 2000 message);
}

-- The row that a task leaves when it gives up.
abbrev pub letter_of : Text → Text → TaskRow → Letter
letter_of id message t = record {
  id = id;
  store_id = t.store_id;
  source_task_id = some t.id;
  task_type = t.task_type;
  aggregate_id = t.aggregate_id;
  status = open_letter;
  failure_reason = take 2000 message;
  correlation_id = t.correlation_id;
  reservation = t.reservation;
  handler_id = none;
  decision_note = none;
}

-- What the world answers while a task is processed.
pub record Answers : Type 0 where
  pub now : ℕ
  -- whether the inventory service accepts the call
  pub accepts : TaskRow → Bool
  pub message : Text
  pub letter_id : TaskRow → Text

-- `recordFailure`
pub record_failure : Answers → TaskRow → Database × Stats → Database × Stats
record_failure env t (db, stats) =
    let attempts = t.attempt_count + 1 in
    if leb t.max_attempts attempts
    then (
      record db {
        tasks = map (update_task t.id (give_up attempts env.message)) db.tasks;
        letters = letter_of (env.letter_id t) env.message t ∷ db.letters;
      },
      record stats { dead_lettered = stats.dead_lettered + 1 },
    )
    else (
      record db {
        tasks =
            map (update_task t.id (try_later attempts (next_retry_at attempts env.now) env.message))
              db.tasks;
      },
      record stats { retried = stats.retried + 1 },
    )

-- The guard of `callInventory` on the payload.
abbrev pub has_payload : Reservation → Bool
has_payload r = not (is_blank r.sku_id || r.qty == 0 || is_blank r.idempotency_key)

-- `processTask`
pub process_task : Answers → TaskRow → Database × Stats → Database × Stats
process_task env t (db, stats) =
    if has_payload t.reservation && env.accepts t
    then (
      record db { tasks = map (update_task t.id complete) db.tasks },
      record stats { processed = stats.processed + 1 },
    )
    else record_failure env t (db, stats)

pub process_all : Answers → List TaskRow → Database × Stats → Database × Stats
process_all env [] s = s
process_all env (t ∷ ts) s = process_all env ts (process_task env t s)

-- `runOnce`, when no run is under way.
pub run_once : ℕ → Answers → Database × Stats → Database × Stats
run_once batch_size env (db, stats) =
    let (claimed, tasks) = claim_due_tasks batch_size env.now db.tasks in
    process_all env claimed (record db { tasks = tasks }, stats)
