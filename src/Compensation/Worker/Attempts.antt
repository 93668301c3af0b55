-- ===== src/Compensation/Worker/Attempts.antt =====
-- The attempts of a task, until it is a dead letter
-- (services/worker-service/src/main.ts, `processTask` and `recordFailure`).
use kuajing.Base.{ℕ, ◌+◌, ◌≡◌, Bool, ◌&&◌, Option, some, ◌∷◌, find}
use kuajing.Base.Text.{Text, text_eq}
use kuajing.Compensation.Tasks.{TaskRow, TaskStatus, completed, retrying}
use kuajing.Compensation.Retry.{next_retry_at}
use kuajing.Compensation.Worker.{
  Database, Stats, Answers, try_later, process_task, has_payload, Letter, open_letter,
}

abbrev has_id : Text → TaskRow → Bool
has_id id t = text_eq t.id id

-- The row of a task in the table.
abbrev pub row_of : TaskRow → Database → Option TaskRow
row_of t db = find (has_id t.id) db.tasks

-- The row of a task after an attempt: what it does stays.
abbrev pub IsRow : TaskRow → TaskStatus → ℕ → Database → Type 0
IsRow t status attempts after =
    (u : TaskRow) × (row_of t after ≡ some u)
    × (u.status ≡ status)
    × (u.attempt_count ≡ attempts)
    × (u.task_type ≡ t.task_type)
    × (u.aggregate_id ≡ t.aggregate_id)
    × (u.reservation ≡ t.reservation)

-- The open letter of a task, before those that were there.
abbrev pub IsLettered : TaskRow → Database → Database → Type 0
IsLettered t before after =
    (l : Letter) × (after.letters ≡ l ∷ before.letters)
    × (l.status ≡ open_letter)
    × (l.source_task_id ≡ some t.id)
    × (l.task_type ≡ t.task_type)
    × (l.aggregate_id ≡ t.aggregate_id)
    × (l.reservation ≡ t.reservation)

-- The three outcomes of an attempt.
abbrev pub IsDone : TaskRow → Database × Stats → Database × Stats → Type 0
IsDone t (db, stats) (db', stats') =
    IsRow t completed t.attempt_count db'
    × (db'.letters ≡ db.letters)
    × (stats' ≡ record stats { processed = stats.processed + 1 })

abbrev pub IsRetried : ℕ → TaskRow → Database × Stats → Database × Stats → Type 0
IsRetried now t (db, stats) (db', stats') =
    IsRow t retrying (t.attempt_count + 1) db'
    × ((u : TaskRow)
        → row_of t db' ≡ some u
        → u.next_run_at ≡ next_retry_at (t.attempt_count + 1) now)
    × (db'.letters ≡ db.letters)
    × (stats' ≡ record stats { retried = stats.retried + 1 })

abbrev pub IsGivenUp : TaskRow → Database × Stats → Database × Stats → Type 0
IsGivenUp t (db, stats) (db', stats') =
    IsRow t TaskStatus.dead_lettered (t.attempt_count + 1) db'
    × IsLettered t db db'
    × (stats' ≡ record stats { dead_lettered = stats.dead_lettered + 1 })

module _ (env : Answers) (t : TaskRow) (db : Database) (stats : Stats)
    (there : row_of t db ≡ some t) where
  abbrev is_accepted : Bool
  is_accepted = has_payload t.reservation && env.accepts t

  abbrev after : Database × Stats
  after = process_task env t (db, stats)

  abbrev later : TaskRow → TaskRow
  later = try_later (t.attempt_count + 1) (next_retry_at (t.attempt_count + 1) env.now) env.message
