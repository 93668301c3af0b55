-- ===== src/Compensation/Worker/Requeued.antt =====
-- A task that gave up and is queued again
-- (services/order-service/src/main.ts and services/worker-service/src/main.ts).
use kuajing.Base.{ℕ, ◌+◌, ◌≤◌, ◌≡◌, refl, true, false, ◌&&◌, some, ◌∷◌, arith, find, leb}
use kuajing.Base.Text.{Text}
use kuajing.Compensation.Tasks.{TaskRow, TaskInput, pending, is_task, new_task, requeued, enqueue}
use kuajing.Compensation.Tasks.Upsert.{find-enqueue}
use kuajing.Compensation.Worker.{
  Database, Stats, Answers, has_payload, letter_of, record_failure, process_task,
}

module _ (store_id id : Text) (next_run_at : ℕ) (correlation_id : Text) (input : TaskInput) where
  -- A task with no attempt left that is queued again waits under its key, and the next call that
  -- the inventory service refuses writes a dead letter for it: the attempts are not reset.
  pub enqueue_exhausted :
      (env : Answers) (db : Database) (stats : Stats) {t : TaskRow}
      → find (is_task store_id input.idempotency_key) db.tasks ≡ some t
      → t.max_attempts ≤ t.attempt_count + 1
      → let new = requeued (new_task store_id id next_run_at correlation_id input) t in
        has_payload input.reservation && env.accepts new ≡ false
        → let tasks = enqueue store_id id next_run_at correlation_id input db.tasks in
          (find (is_task store_id input.idempotency_key) tasks ≡ some new)
          × (new.status ≡ pending)
          × ((process_task env new (record db { tasks = tasks }, stats)).0.letters
              ≡ letter_of (env.letter_id new) env.message new ∷ db.letters)
  unfolding process_task record_failure
  enqueue_exhausted env db stats {t} there spent refused = (
    find-enqueue store_id id next_run_at correlation_id input db.tasks there,
    refl,
    rw refused (rw at_limit refl),
  )
    where
      at_limit : leb t.max_attempts (t.attempt_count + 1) ≡ true
      at_limit = ground arith
