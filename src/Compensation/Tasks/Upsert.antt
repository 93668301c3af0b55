-- ===== src/Compensation/Tasks/Upsert.antt =====
-- The upsert of `compensation_tasks` (services/order-service/src/main.ts).
use kuajing.Base.{ℕ, ◌≡◌, refl, some, List, [], ◌∷◌, arith, find, inl, inr, Bool-cases}
use kuajing.Base.Text.{Text, text_eq_refl}
use kuajing.Compensation.Tasks.{
  TaskRow, TaskInput, pending, is_task, requeued, new_task, upsert, enqueue,
}

-- The task of a key is there, and waits to be run.
abbrev pub IsPending : Text → Text → List TaskRow → Type 0
IsPending store_id key ts =
    (t : TaskRow) × (find (is_task store_id key) ts ≡ some t) × (t.status ≡ pending)

upsert-IsPending :
    (new : TaskRow) (ts : List TaskRow)
    → new.status ≡ pending
    → IsPending new.store_id new.idempotency_key (upsert new ts)
unfolding upsert
upsert-IsPending new [] h =
    (new, ground (arith, text_eq_refl new.store_id, text_eq_refl new.idempotency_key), h)
upsert-IsPending new (t ∷ ts) h = elim (Bool-cases (is_task new.store_id new.idempotency_key t)) [
  | inl e ↦ (requeued new t, ground arith, refl)
  | inr e ↦ let (u, f, p) = upsert-IsPending new ts h in (u, ground arith, p)
]

-- A task that waits goes on waiting when another is queued.
upsert_keeps-IsPending :
    (new : TaskRow) (store_id key : Text) (ts : List TaskRow)
    → IsPending store_id key ts
    → IsPending store_id key (upsert new ts)
unfolding upsert
upsert_keeps-IsPending new store_id key [] (t, f, p) = cc
upsert_keeps-IsPending new store_id key (x ∷ ts) (t, f, p) =
    elim (Bool-cases (is_task store_id key x)) [
      | inl e ↦ elim (Bool-cases (is_task new.store_id new.idempotency_key x)) [
        | inl n ↦ (requeued new x, ground arith, refl)
        | inr n ↦ (x, ground arith, ground arith)
      ]
      | inr e ↦ elim (Bool-cases (is_task new.store_id new.idempotency_key x)) [
        | inl n ↦ (t, ground arith, p)
        | inr n ↦
            let (u, g, q) = upsert_keeps-IsPending new store_id key ts (t, ground arith, p) in
            (u, ground arith, q)
      ]
    ]

find-upsert :
    (new : TaskRow) (ts : List TaskRow) {t : TaskRow}
    → find (is_task new.store_id new.idempotency_key) ts ≡ some t
    → find (is_task new.store_id new.idempotency_key) (upsert new ts) ≡ some (requeued new t)
unfolding upsert
find-upsert new [] f = cc
find-upsert new (x ∷ ts) {t} f = elim (Bool-cases (is_task new.store_id new.idempotency_key x)) [
  | inl e ↦ ground arith
  | inr e ↦ ground (arith, find-upsert new ts {t = t})
]

module _ (store_id id : Text) (next_run_at : ℕ) (correlation_id : Text) (input : TaskInput)
    (ts : List TaskRow) where
  -- A task that is queued waits to be run, under its key, whatever stood there before.
  pub enqueue-IsPending :
      IsPending store_id input.idempotency_key
        (enqueue store_id id next_run_at correlation_id input ts)
  unfolding enqueue
  enqueue-IsPending =
      upsert-IsPending (new_task store_id id next_run_at correlation_id input) ts refl

  pub enqueue_keeps-IsPending :
      (key : Text)
      → IsPending store_id key ts
      → IsPending store_id key (enqueue store_id id next_run_at correlation_id input ts)
  unfolding enqueue
  enqueue_keeps-IsPending key =
      upsert_keeps-IsPending (new_task store_id id next_run_at correlation_id input) store_id key ts

  pub find-enqueue :
      {t : TaskRow}
      → find (is_task store_id input.idempotency_key) ts ≡ some t
      → find
          (is_task store_id input.idempotency_key)
          (enqueue store_id id next_run_at correlation_id input ts)
        ≡ some (requeued (new_task store_id id next_run_at correlation_id input) t)
  unfolding enqueue
  find-enqueue = find-upsert (new_task store_id id next_run_at correlation_id input) ts
