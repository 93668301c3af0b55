-- ===== src/Compensation/Worker/Tests.antt =====
-- Runs of the worker, and the theorems on tasks and dead letters at work on them
-- (services/worker-service/src/main.ts).
use kuajing.Base.{
  ℕ, ◌≡◌, ◌≤◌, refl, Bool, true, false, none, some, [], ◌∷◌, All, find, length, arith,
}
use kuajing.Base.Sort.{pick, sort_by, insert_by}
use kuajing.Base.Text.{codes, text_eq}
use kuajing.Base.Failure.{http, ok, err, conflict, not_found}
use kuajing.Compensation.Tasks.{
  inventory_confirm, pending, Reservation, TaskInput, TaskRow, new_task, requeued, is_task, enqueue,
}
use kuajing.Compensation.Worker.{
  retrying_letter, Database, Stats, Answers, is_due, due, by_time, among, claim_due_tasks,
  letter_of, record_failure, process_task, process_all, run_once,
}
use kuajing.Compensation.Worker.Claim.{claim_due_tasks_exclusive}
use kuajing.Compensation.Worker.Requeued.{enqueue_exhausted}
use kuajing.Compensation.Letters.{
  DecisionInput, normalize_decision, decided, retry_dead_letter_task, discard_dead_letter_task,
}
use kuajing.Compensation.Letters.Once.{retry_dead_letter_task_once}

abbrev reservation : Reservation
reservation = record { sku_id = codes "s1"; qty = 2; idempotency_key = codes "k1" }

abbrev input : TaskInput
input = record {
  task_type = inventory_confirm;
  aggregate_id = codes "o1";
  idempotency_key = codes "k1:c";
  reservation = reservation;
  last_error = codes "down";
}

-- A task with some attempts behind it.
abbrev task : ℕ → TaskRow
task attempts = record (new_task (codes "st") (codes "t1") 5 (codes "c1") input) {
  attempt_count = attempts;
}

abbrev tables : ℕ → Database
tables attempts = record { tasks = task attempts ∷ []; letters = []; audits = [] }

abbrev stats : Stats
stats = record { processed = 0; retried = 0; dead_lettered = 0 }

abbrev answering : Bool → Answers
answering accepts = record {
  now = 9;
  accepts = λ t. accepts;
  message = codes "no";
  letter_id = λ t. codes "l1";
}

-- The eighth refusal of a task is its last.
run_last : (run_once 20 (answering false) (tables 7, stats)).1 ≡ record stats { dead_lettered = 1 }
unfolding run_once claim_due_tasks due by_time pick sort_by insert_by process_all process_task
    record_failure
run_last = refl

claim_due_tasks_exclusive_example :
    let (claimed, ts) = claim_due_tasks 1 9 (task 0 ∷ []) in
    (length claimed ≤ 1)
    × All (λ (t : TaskRow). is_due 9 t ≡ true) claimed
    × All (λ (t : TaskRow). among t.id claimed ≡ false) (claim_due_tasks 1 10 ts).0
claim_due_tasks_exclusive_example = claim_due_tasks_exclusive 1 9 10 (task 0 ∷ [])

enqueue_exhausted_example :
    let new = requeued (new_task (codes "st") (codes "t2") 6 (codes "c2") input) (task 8) in
    let tasks = enqueue (codes "st") (codes "t2") 6 (codes "c2") input (task 8 ∷ []) in
    (find (is_task (codes "st") (codes "k1:c")) tasks ≡ some new)
    × (new.status ≡ pending)
    × ((process_task (answering false) new (record (tables 8) { tasks = tasks }, stats)).0.letters
        ≡ letter_of (codes "l1") (codes "no") new ∷ [])
unfolding text_eq
enqueue_exhausted_example =
    enqueue_exhausted (codes "st") (codes "t2") 6 (codes "c2") input (answering false) (tables 8)
      stats {t = task 8} refl (omega arith) refl

abbrev letters : Database
letters = record (tables 8) { letters = letter_of (codes "l1") (codes "no") (task 8) ∷ [] }

abbrev unsigned : DecisionInput
unsigned = record { handler_id = none; decision_note = none }

retry_dead_letter_task_once_example :
    let (answer, db) = retry_dead_letter_task 10 (codes "l1") unsigned letters in
    (answer
      ≡ ok (
          some (
            decided retrying_letter
              (normalize_decision unsigned)
              (letter_of (codes "l1") (codes "no") (task 8)))))
    × (retry_dead_letter_task 11 (codes "l1") unsigned db ≡ (err (http conflict), db))
    × (discard_dead_letter_task (codes "l1") unsigned db ≡ (err (http not_found), db))
unfolding text_eq
retry_dead_letter_task_once_example =
    retry_dead_letter_task_once 10 11 (codes "l1") unsigned unsigned letters refl refl
      {source = codes "t1"} refl
