-- ===== src/Compensation/Worker/Claim.antt =====
-- What the worker claims (services/worker-service/src/main.ts, `claimDueTasks`).
use kuajing.Base.{
  ℕ, ◌≡◌, ◌≤◌, true, false, List, [], ◌∷◌, All, map, take, length, inl, inr, Bool-cases,
}
use kuajing.Compensation.Tasks.{TaskRow}
use kuajing.Base.Sort.{pick, pick-All, sort-All, take-All, length-take}
use kuajing.Compensation.Worker.{is_due, due, by_time, among, set_processing, claim_due_tasks}

due-set_processing :
    (claimed : List TaskRow) (now : ℕ) (ts : List TaskRow)
    → All (λ (t : TaskRow). among t.id claimed ≡ false) (due now (map (set_processing claimed) ts))
unfolding due pick
due-set_processing claimed now [] = tt
due-set_processing claimed now (t ∷ ts) = elim (Bool-cases (among t.id claimed)) [
  | inl e ↦ rw e (due-set_processing claimed now ts)
  | inr e ↦ rw e (elim (Bool-cases (is_due now t)) [
    | inl f ↦ rw f (e, due-set_processing claimed now ts)
    | inr f ↦ rw f (due-set_processing claimed now ts)
  ])
]

-- A claim takes at most as many tasks as a batch holds, and each of them waits and is due. Whoever
-- claims next, at whatever time, gets none of them.
pub claim_due_tasks_exclusive :
    (batch_size now later : ℕ) (ts : List TaskRow)
    → let (claimed, ts') = claim_due_tasks batch_size now ts in
      (length claimed ≤ batch_size)
      × All (λ (t : TaskRow). is_due now t ≡ true) claimed
      × All (λ (t : TaskRow). among t.id claimed ≡ false) (claim_due_tasks batch_size later ts').0
unfolding claim_due_tasks due by_time
claim_due_tasks_exclusive batch_size now later ts = (
  length-take batch_size (by_time (due now ts)),
  chosen (λ t. is_due now t ≡ true) (due now ts) (pick-All (is_due now) ts),
  chosen unclaimed (due later (map (set_processing claimed) ts))
      (due-set_processing claimed later ts),
)
  where
    claimed : List TaskRow
    claimed = take batch_size (by_time (due now ts))

    unclaimed : TaskRow → Type 0
    unclaimed t = among t.id claimed ≡ false

    chosen :
        (P : TaskRow → Type 0) (rows : List TaskRow)
        → All P rows
        → All P (take batch_size (by_time rows))
    chosen P rows h = take-All P batch_size _ (sort-All P (λ t. t.next_run_at) rows h)
