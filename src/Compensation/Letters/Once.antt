-- ===== src/Compensation/Letters/Once.antt =====
-- A dead letter is decided once (services/worker-service/src/main.ts).
use kuajing.Base.{
  ℕ, ◌≡◌, refl, true, false, none, some, List, [], ◌∷◌, find, map, arith, inl, inr, Bool-cases,
}
use kuajing.Base.Text.{Text, text_eq}
use kuajing.Base.Failure.{http, ok, err, conflict, not_found}
use kuajing.Compensation.Tasks.{TaskRow}
use kuajing.Compensation.Worker.{Letter, LetterStatus, retrying_letter, Database}
use kuajing.Compensation.Letters.{
  DecisionInput, Decision, normalize_decision, has_id, is_open, decided, decide_by_id,
  retry_handler, retry_dead_letter_task, can_discard, discard_handler, retried,
  discard_dead_letter_task,
}

module _ (id : Text) (d : Decision) where
  find-decide_by_id :
      (status : LetterStatus) (ls : List Letter) {l : Letter}
      → find (has_id id) ls ≡ some l
      → find (has_id id) (map (decide_by_id id status d) ls) ≡ some (decided status d l)
  find-decide_by_id status [] e = cc
  find-decide_by_id status (x ∷ ls) {l} e = elim (Bool-cases (text_eq x.id id)) [
    | inl h ↦ ground arith
    | inr h ↦ ground (arith, find-decide_by_id status ls {l = l})
  ]

  -- No row with the id is open once all of them are decided.
  find-can_discard :
      (tasks : List TaskRow) (status : LetterStatus) (ls : List Letter)
      → is_open status ≡ false
      → find (can_discard id tasks) (map (decide_by_id id status d) ls) ≡ none
  find-can_discard tasks status [] e = refl
  find-can_discard tasks status (x ∷ ls) e = elim (Bool-cases (text_eq x.id id)) [
    | inl h ↦ ground (arith, find-can_discard tasks status ls)
    | inr h ↦ ground (arith, find-can_discard tasks status ls)
  ]

module _ (now : ℕ) (id : Text) (input : DecisionInput) (db : Database) {l : Letter} where
  retry_accepted :
      find (has_id id) db.letters ≡ some l
      → is_open l.status ≡ true
      → {source : Text} → l.source_task_id ≡ some source
      → retry_dead_letter_task now id input db ≡ (
        ok (some (decided retrying_letter (normalize_decision input) l)),
        retried now id source (normalize_decision input) l.status db,
      )
  unfolding retry_dead_letter_task retry_handler
  retry_accepted there is_o named =
      rw (there, retry_handler)
        (rw is_o (
          rw named (
            rw (find-decide_by_id id (normalize_decision input) retrying_letter db.letters there)
              cc)))

  retry_refused :
      find (has_id id) db.letters ≡ some l
      → is_open l.status ≡ false
      → retry_dead_letter_task now id input db ≡ (err (http conflict), db)
  unfolding retry_dead_letter_task retry_handler
  retry_refused there is_o = rw (there, retry_handler) (rw is_o refl)

discard_refused :
    (id : Text) (input : DecisionInput) (db : Database)
    → find (can_discard id db.tasks) db.letters ≡ none
    → discard_dead_letter_task id input db ≡ (err (http not_found), db)
unfolding discard_dead_letter_task discard_handler
discard_refused id input db e = rw (e, discard_handler) refl

module _ (now later : ℕ) (id : Text) (input again : DecisionInput) (db : Database)
    {l : Letter} where
  -- A retry of an open dead letter that names its task is accepted and marks the letter; a second
  -- retry is then a conflict and a discard finds nothing, and neither changes the tables.
  pub retry_dead_letter_task_once :
      find (has_id id) db.letters ≡ some l
      → is_open l.status ≡ true
      → {source : Text} → l.source_task_id ≡ some source
      → let (answer, db') = retry_dead_letter_task now id input db in
        (answer ≡ ok (some (decided retrying_letter (normalize_decision input) l)))
        × (retry_dead_letter_task later id again db' ≡ (err (http conflict), db'))
        × (discard_dead_letter_task id again db' ≡ (err (http not_found), db'))
  retry_dead_letter_task_once there is_o {source} named =
      let d = normalize_decision input in
      rw (retry_accepted now id input db there is_o {source = source} named) (
        refl,
        retry_refused later id again _ (find-decide_by_id id d retrying_letter db.letters there)
            refl,
        discard_refused id again _ (find-can_discard id d _ retrying_letter db.letters refl),
      )
