-- ===== src/Order/Payments/Queue.antt =====
-- The compensation tasks that a payment callback queues
-- (services/order-service/src/main.ts, `applyInventoryTransition`).
use kuajing.Base.{
  ◌≡◌, refl, Bool, true, false, ◌||◌, not, List, [], ◌∷◌, All, Bool-cases, inl, inr, ◌⊎◌, subst,
  sym,
}
use kuajing.Base.Text.{Text}
use kuajing.Order.State.{Action}
use kuajing.Order.Payments.{
  Answers, task_key, task_type, enqueue_inventory_compensation, apply_inventory_transition,
}
use kuajing.Compensation.Tasks.{TaskRow, TaskInput, Reservation}
use kuajing.Compensation.Tasks.Upsert.{IsPending, enqueue-IsPending, enqueue_keeps-IsPending}

module _ (store_id order_id : Text) (action : Action) (env : Answers) where
  abbrev input_of : Reservation → TaskInput
  input_of r = record {
    task_type = task_type action;
    aggregate_id = order_id;
    idempotency_key = task_key action r;
    reservation = r;
    last_error = env.last_error;
  }

  queue_keeps :
      (key : Text) (r : Reservation) (ts : List TaskRow)
      → IsPending store_id key ts
      → IsPending store_id key (enqueue_inventory_compensation store_id order_id action env r ts)
  unfolding enqueue_inventory_compensation
  queue_keeps key r ts h = elim (Bool-cases (env.stores r)) [
    | inl e ↦ rw e (
        enqueue_keeps-IsPending store_id (env.task_id r) env.next_run_at env.correlation_id
          (input_of r) ts key h)
    | inr e ↦ rw e h
  ]

  queue_adds :
      (r : Reservation) (ts : List TaskRow)
      → env.stores r ≡ true
      → IsPending store_id
          (task_key action r)
          (enqueue_inventory_compensation store_id order_id action env r ts)
  unfolding enqueue_inventory_compensation
  queue_adds r ts e = rw e (
      enqueue-IsPending store_id (env.task_id r) env.next_run_at env.correlation_id (input_of r) ts)

  apply_keeps :
      (key : Text) (rs : List Reservation) (ts : List TaskRow)
      → IsPending store_id key ts
      → IsPending store_id key (apply_inventory_transition store_id order_id action env rs ts).1
  unfolding apply_inventory_transition
  apply_keeps key [] ts h = h
  apply_keeps key (r ∷ rs) ts h = elim (Bool-cases (env.accepts r)) [
    | inl e ↦ rw e (apply_keeps key rs ts h)
    | inr e ↦ rw e (
        apply_keeps key rs (enqueue_inventory_compensation store_id order_id action env r ts)
          (queue_keeps key r ts h))
  ]

  -- What the queue promises of a reservation: it was settled, or its task could not be written, or
  -- its task waits to be run.
  abbrev pub IsSettled : List TaskRow → Reservation → Type 0
  IsSettled ts r =
      (env.accepts r ≡ true) ⊎ (env.stores r ≡ false) ⊎ IsPending store_id (task_key action r) ts

  refused :
      (r : Reservation) (rs : List Reservation) (ts : List TaskRow)
      → (env.stores r ≡ true) ⊎ (env.stores r ≡ false)
      → IsSettled
          (apply_inventory_transition store_id order_id action env rs
            (enqueue_inventory_compensation store_id order_id action env r ts)).1
          r
  refused r rs ts (inl e) = inr (inr (apply_keeps (task_key action r) rs _ (queue_adds r ts e)))
  refused r rs ts (inr e) = inr (inl e)

  apply-accepted :
      (r : Reservation) (rs : List Reservation) (ts : List TaskRow)
      → env.accepts r ≡ true
      → (apply_inventory_transition store_id order_id action env (r ∷ rs) ts).1
        ≡ (apply_inventory_transition store_id order_id action env rs ts).1
  unfolding apply_inventory_transition
  apply-accepted r rs ts e = rw e

  apply-refused :
      (r : Reservation) (rs : List Reservation) (ts : List TaskRow)
      → env.accepts r ≡ false
      → (apply_inventory_transition store_id order_id action env (r ∷ rs) ts).1
        ≡ (apply_inventory_transition store_id order_id action env rs
            (enqueue_inventory_compensation store_id order_id action env r ts)).1
  unfolding apply_inventory_transition
  apply-refused r rs ts e = rw e

  -- After the calls of a callback every reservation was settled by the inventory service, or has a
  -- task that waits to be run, unless its task could not be written.
  pub apply_inventory_transition-IsSettled :
      (rs : List Reservation) (ts : List TaskRow)
      → All (IsSettled (apply_inventory_transition store_id order_id action env rs ts).1) rs
  apply_inventory_transition-IsSettled [] ts = tt
  apply_inventory_transition-IsSettled (r ∷ rs) ts = elim (Bool-cases (env.accepts r)) [
    | inl e ↦
        subst (λ out. IsSettled out r × All (IsSettled out) rs) (sym (apply-accepted r rs ts e))
          (inl e, apply_inventory_transition-IsSettled rs ts)
    | inr e ↦
        subst (λ out. IsSettled out r × All (IsSettled out) rs) (sym (apply-refused r rs ts e))
          (
            refused r rs ts (Bool-cases (env.stores r)),
            apply_inventory_transition-IsSettled rs
                (enqueue_inventory_compensation store_id order_id action env r ts),
          )
  ]

  abbrev pub any_refused : List Reservation → Bool
  any_refused [] = false
  any_refused (r ∷ rs) = not (env.accepts r) || any_refused rs

  -- A callback reports a compensation exactly when a call for one of its reservations failed.
  pub apply_inventory_transition_queued :
      (rs : List Reservation) (ts : List TaskRow)
      → (apply_inventory_transition store_id order_id action env rs ts).0 ≡ any_refused rs
  unfolding apply_inventory_transition
  apply_inventory_transition_queued [] ts = refl
  apply_inventory_transition_queued (r ∷ rs) ts = elim (Bool-cases (env.accepts r)) [
    | inl e ↦ rw e (apply_inventory_transition_queued rs ts)
    | inr e ↦ rw e refl
  ]
