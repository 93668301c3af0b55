-- ===== src/Compensation/Letters.antt =====
-- The administrator's decisions on dead letters (services/worker-service/src/main.ts).
pub mod Once
use kuajing.Base.{
  ℕ, ◌≡◌, refl, Bool, true, false, ◌&&◌, Option, none, some, List, [], ◌∷◌, if◌then◌else◌, find,
  map, take, or_else, arith, inl, inr, Option-cases, Bool-cases, ap, ◌∙◌,
}
use kuajing.Base.Text.{Text, text_eq, text_eq_iff, text_eq_refl, codes, trimmed, non_empty, trim}
use kuajing.Base.Failure.{
  http, Result, ok, err, ◌>>=◌, ◌>>◌, throw_if, conflict, not_found, committed,
}
use kuajing.Compensation.Tasks.{pending, TaskRow}
use kuajing.Compensation.Worker.{
  Letter, LetterStatus, open_letter, retrying_letter, discarded, LetterAudit, Database, update_task,
}

-- `RetryDecisionInput`
pub record DecisionInput : Type 0 where
  pub handler_id : Option Text
  pub decision_note : Option Text

pub record Decision : Type 0 where
  pub handler_id : Text
  pub decision_note : Text

-- `value?.trim().slice(0, n) || fallback`
abbrev pub cut_or : ℕ → Text → Option Text → Text
cut_or n fallback none = fallback
cut_or n fallback (some t) = or_else (non_empty (take n (trim t))) fallback

-- `normalizeDecision`
pub normalize_decision : DecisionInput → Decision
normalize_decision input = record {
  handler_id = cut_or 120 (codes "admin") input.handler_id;
  decision_note = cut_or 1000 (codes "manual retry from admin") input.decision_note;
}

abbrev pub has_id : Text → Letter → Bool
has_id id l = text_eq l.id id

abbrev pub is_open : LetterStatus → Bool
is_open open_letter = true
is_open retrying_letter = false
is_open discarded = false

-- `UPDATE dead_letter_tasks SET status = …, handler_id = …, decision_note = …`
abbrev pub decided : LetterStatus → Decision → Letter → Letter
decided status d l = record l {
  status = status;
  handler_id = some d.handler_id;
  decision_note = some d.decision_note;
}

abbrev pub decide_by_id : Text → LetterStatus → Decision → Letter → Letter
decide_by_id id status d l = if has_id id l then decided status d l else l

abbrev pub audit_of : Text → Decision → LetterStatus → LetterStatus → LetterAudit
audit_of id d old_status new_status = record {
  task_id = id;
  actor_id = d.handler_id;
  decision_note = d.decision_note;
  old_status = old_status;
  new_status = new_status;
}

-- `UPDATE compensation_tasks SET status = 'pending', attempt_count = 0, …`
abbrev pub restart : ℕ → TaskRow → TaskRow
restart now t = record t {
  status = pending;
  attempt_count = 0;
  next_run_at = now;
  last_error = none;
}

-- The writes of `retryDeadLetterTask`.
abbrev pub retried : ℕ → Text → Text → Decision → LetterStatus → Database → Database
retried now id source d old_status db = record {
  tasks = map (update_task source (restart now)) db.tasks;
  letters = map (decide_by_id id retrying_letter d) db.letters;
  audits = audit_of id d old_status retrying_letter ∷ db.audits;
}

-- The handler of `retryDeadLetterTask`; its answer is the letter as it is read back.
pub retry_handler : ℕ → Text → Decision → Database → Result (Option Letter × Database)
retry_handler now id d db = elim (find (has_id id) db.letters) [
  | none ↦ err (http not_found)
  | some l ↦
      if is_open l.status
      then elim l.source_task_id [
        | none ↦ err (http conflict)
        | some source ↦
            let db' = retried now id source d l.status db in ok (find (has_id id) db'.letters, db')
      ]
      else err (http conflict)
]

-- `retryDeadLetterTask`
pub retry_dead_letter_task : ℕ → Text → DecisionInput → Database → Result (Option Letter) × Database
retry_dead_letter_task now id input db =
    committed (retry_handler now id (normalize_decision input) db) db

-- `FROM compensation_tasks ct WHERE dlt.source_task_id = ct.id`
abbrev pub has_source : List TaskRow → Letter → Bool
has_source tasks l = elim l.source_task_id [
  | none ↦ false
  | some source ↦ elim (find (λ (t : TaskRow). text_eq t.id source) tasks) [
    | none ↦ false
    | some t ↦ true
  ]
]

abbrev pub can_discard : Text → List TaskRow → Letter → Bool
can_discard id tasks l = has_id id l && has_source tasks l && is_open l.status

abbrev pub discard_row : Text → List TaskRow → Decision → Letter → Letter
discard_row id tasks d l = if can_discard id tasks l then decided discarded d l else l

-- The handler of `discardDeadLetterTask`.
pub discard_handler : Text → Decision → Database → Result (Option Letter × Database)
discard_handler id d db = elim (find (can_discard id db.tasks) db.letters) [
  | none ↦ err (http not_found)
  | some l ↦
      let db' = record db {
        letters = map (discard_row id db.tasks d) db.letters;
        audits = audit_of id d open_letter discarded ∷ db.audits;
      } in
      ok (find (has_id id) db'.letters, db')
]

-- `discardDeadLetterTask`
pub discard_dead_letter_task : Text → DecisionInput → Database → Result (Option Letter) × Database
discard_dead_letter_task id input db =
    committed (discard_handler id (normalize_decision input) db) db
