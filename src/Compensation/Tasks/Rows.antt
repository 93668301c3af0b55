-- ===== src/Compensation/Tasks/Rows.antt =====
-- The row that the upsert of `compensation_tasks` leaves under a key
-- (services/order-service/src/main.ts).
use kuajing.Base.{
  ℕ, ◌≡◌, ◌≢◌, refl, true, false, none, some, List, [], ◌∷◌, arith, find, inl, inr, Bool-cases,
  Option-cases, All,
}
use kuajing.Base.Text.{Text, text_eq_iff, text_eq_refl}
use kuajing.Compensation.Tasks.{
  TaskRow, TaskType, TaskInput, Reservation, pending, is_task, requeued, new_task, upsert, enqueue,
}
use kuajing.Compensation.Tasks.Upsert.{find-enqueue}

find-upsert_new :
    (new : TaskRow) (ts : List TaskRow)
    → find (is_task new.store_id new.idempotency_key) ts ≡ none
    → find (is_task new.store_id new.idempotency_key) (upsert new ts) ≡ some new
unfolding upsert
find-upsert_new new [] e =
    ground (arith, text_eq_refl new.store_id, text_eq_refl new.idempotency_key)
find-upsert_new new (t ∷ ts) e = elim (Bool-cases (is_task new.store_id new.idempotency_key t)) [
  | inl f ↦ absurd (ground arith)
  | inr f ↦ ground (arith, find-upsert_new new ts)
]

other_task :
    (store_id key other : Text) (t : TaskRow)
    → other ≢ key
    → is_task store_id other t ≡ true
    → is_task store_id key t ≡ false
other_task store_id key other t differ h =
    ground (arith, differ, text_eq_iff t.idempotency_key other, text_eq_iff t.idempotency_key key)

find-upsert_other :
    (new : TaskRow) (key : Text) (ts : List TaskRow)
    → new.idempotency_key ≢ key
    → find (is_task new.store_id key) (upsert new ts) ≡ find (is_task new.store_id key) ts
unfolding upsert
find-upsert_other new key [] differ =
    let g =
      other_task new.store_id key new.idempotency_key new differ
        (ground (arith, text_eq_refl new.store_id, text_eq_refl new.idempotency_key)) in
    ground arith
find-upsert_other new key (t ∷ ts) differ =
    elim (Bool-cases (is_task new.store_id new.idempotency_key t)) [
      | inl f ↦ let g = other_task new.store_id key new.idempotency_key t differ f in ground arith
      | inr f ↦ let rest = find-upsert_other new key ts differ in ground (arith, rest)
    ]

-- A task of a key that waits with a reservation; unless the key stood there before, it is of the
-- type and the order given.
abbrev pub IsQueuedFor :
    Text → Text → TaskType → Text → Reservation → List TaskRow → List TaskRow → Type 0
IsQueuedFor store_id key type order_id r before after =
    (t : TaskRow) × (find (is_task store_id key) after ≡ some t)
    × (t.status ≡ pending)
    × (t.reservation ≡ r)
    × (find (is_task store_id key) before ≡ none
        → (t.task_type ≡ type) × (t.aggregate_id ≡ order_id))

-- No task is of the order.
abbrev pub HasNone : Text → List TaskRow → Type 0
HasNone order_id ts = All (λ (t : TaskRow). t.aggregate_id ≢ order_id) ts

upsert-HasNone :
    (new : TaskRow) (order_id : Text) (ts : List TaskRow) {t : TaskRow}
    → find (is_task new.store_id new.idempotency_key) ts ≡ some t
    → HasNone order_id ts
    → HasNone order_id (upsert new ts)
unfolding upsert
upsert-HasNone new order_id [] e h = absurd (ground arith)
upsert-HasNone new order_id (x ∷ ts) {t} e (h, hs) =
    elim (Bool-cases (is_task new.store_id new.idempotency_key x)) [
      | inl f ↦ rw f (h, hs)
      | inr f ↦ rw f (h, upsert-HasNone new order_id ts {t = t} (ground arith) hs)
    ]

module _ (store_id id : Text) (next_run_at : ℕ) (correlation_id : Text) (input : TaskInput)
    (ts : List TaskRow) where
  pub enqueue-IsQueuedFor :
      IsQueuedFor store_id input.idempotency_key input.task_type input.aggregate_id
        input.reservation ts
        (enqueue store_id id next_run_at correlation_id input ts)
  unfolding enqueue
  enqueue-IsQueuedFor = elim (Option-cases (find (is_task store_id input.idempotency_key) ts)) [
    | inl e ↦ (
      new_task store_id id next_run_at correlation_id input,
      find-upsert_new (new_task store_id id next_run_at correlation_id input) ts e,
      refl,
      refl,
      λ _. (refl, refl),
    )
    | inr (t, e) ↦ (
      requeued (new_task store_id id next_run_at correlation_id input) t,
      find-enqueue store_id id next_run_at correlation_id input ts e,
      refl,
      refl,
      λ f. cc (e, f),
    )
  ]

  pub find-enqueue_other :
      (key : Text)
      → input.idempotency_key ≢ key
      → find (is_task store_id key) (enqueue store_id id next_run_at correlation_id input ts)
        ≡ find (is_task store_id key) ts
  unfolding enqueue
  find-enqueue_other key =
      find-upsert_other (new_task store_id id next_run_at correlation_id input) key ts

  -- A task under a key that is in use adds no task of another order.
  pub enqueue-HasNone :
      (order_id : Text) {t : TaskRow}
      → find (is_task store_id input.idempotency_key) ts ≡ some t
      → HasNone order_id ts
      → HasNone order_id (enqueue store_id id next_run_at correlation_id input ts)
  unfolding enqueue
  enqueue-HasNone order_id =
      upsert-HasNone (new_task store_id id next_run_at correlation_id input) order_id ts
