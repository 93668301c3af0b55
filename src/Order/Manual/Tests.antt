-- ===== src/Order/Manual/Tests.antt =====
-- A manual compensation, and the same key used for another order
-- (services/order-service/src/main.ts).
use kuajing.Base.{◌≡◌, refl, true, none, some, [], ◌∷◌}
use kuajing.Base.Decimal.{show, digits}
use kuajing.Base.Text.{codes, text_eq, text_neq}
use kuajing.Base.Failure.{ok}
use kuajing.Order.State.{confirm, cancel, is_exception_state}
use kuajing.Order.Request.{ManualInput}
use kuajing.Order.Checkout.{line_key}
use kuajing.Compensation.Tasks.{TaskRow, inventory_confirm, pending}
use kuajing.Compensation.Tasks.Rows.{HasNone}
use kuajing.Order.Payments.{Transition, get_order_state, get_order_reservations, line_reservations}
use kuajing.Order.Manual.{Ledger, Drawn, awaiting, manual_queue_inventory_compensation}
use kuajing.Order.Manual.Reused.{manual_key_reused}

abbrev drawn : Drawn
drawn = record { task_id = λ n. codes "t"; next_run_at = 5; correlation_id = codes "c" }

abbrev input : ManualInput
input = record { action = cancel; actor_id = codes "admin"; reason = codes "lost" }

abbrev task : TaskRow
task = record {
  id = codes "t0";
  store_id = codes "st";
  task_type = inventory_confirm;
  aggregate_id = codes "o1";
  idempotency_key = line_key (codes "k") 0;
  status = pending;
  attempt_count = 0;
  max_attempts = 8;
  next_run_at = 1;
  last_error = none;
  correlation_id = codes "c";
  reservation = record { sku_id = codes "s1"; qty = 1; idempotency_key = codes "r1" };
}

-- The order o2 awaits its compensation; the key has served for the order o1.
abbrev ledger : Ledger
ledger = record {
  tables = record {
    orders = record { id = codes "o2"; store_id = codes "st"; state = awaiting confirm } ∷ [];
    order_lines =
        record {
          store_id = codes "st";
          order_id = codes "o2";
          sku_id = codes "s2";
          qty = 2;
          inventory_reservation_key_snapshot = some (codes "r2");
        }
        ∷ [];
    tasks = task ∷ [];
  };
  audit_rows = [];
}

abbrev answer : Transition
answer = record { state = awaiting cancel; compensation_queued = true }

abbrev fresh_ledger : Ledger
fresh_ledger = record ledger { tables = record ledger.tables { tasks = [] } }

not_yet : HasNone (codes "o2") ledger.tables.tasks
unfolding text_eq
not_yet = (text_neq (codes "o1") (codes "o2") refl, tt)

manual_key_reused_example :
    let (given, after) =
      manual_queue_inventory_compensation
        (codes "st")
        (codes "o2")
        input
        (codes "k")
        drawn
        ledger in
    (given ≡ ok answer)
    × (get_order_state (codes "st") (codes "o2") after.tables ≡ ok (awaiting cancel))
    × HasNone (codes "o2") after.tables.tasks
unfolding get_order_state get_order_reservations line_reservations is_exception_state text_eq show
    digits
manual_key_reused_example =
    manual_key_reused (codes "st") (codes "o2") input (codes "k") drawn ledger (awaiting confirm)
      (record { sku_id = codes "s2"; qty = 2; idempotency_key = codes "r2" } ∷ []) refl refl refl
      ((task, refl), tt) not_yet
