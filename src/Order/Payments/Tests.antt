-- ===== src/Order/Payments/Tests.antt =====
-- Runs of the payment callbacks, and their theorems at work on them
-- (services/order-service/src/main.ts).
use kuajing.Base.{◌≡◌, refl, true, some, List, [], ◌∷◌, ◌↔◌, inl, All}
use kuajing.Base.Text.{Text, codes, text_eq}
use kuajing.Base.Failure.{ok}
use kuajing.Order.State.{
  Status, PaymentStatus, InventoryStatus, OrderState, confirm, cancel, desired_state_for_action,
  is_final_transition, assert_order_transition, Moves, assert_order_transition_iff,
}
use kuajing.Compensation.Tasks.{Reservation}
use kuajing.Order.Payments.{
  LineRow, Database, Answers, get_order_state, line_reservations, get_order_reservations,
  enqueue_inventory_compensation, apply_inventory_transition, next_state, settle_payment,
  check_payment, transition_handler, transition_order, transition_payment,
}
use kuajing.Order.Payments.Queue.{IsSettled, apply_inventory_transition-IsSettled}
use kuajing.Order.Payments.Terminal.{outcome, transition_payment_live, cancel_after_payment}

abbrev line : Text → Text → LineRow
line sku_id key = record {
  store_id = codes "st";
  order_id = codes "o1";
  sku_id = sku_id;
  qty = 2;
  inventory_reservation_key_snapshot = some key;
}

abbrev reservation : Text → Text → Reservation
reservation sku_id key = record { sku_id = sku_id; qty = 2; idempotency_key = key }

abbrev lines : List Reservation
lines = reservation (codes "s1") (codes "k1") ∷ reservation (codes "s2") (codes "k2") ∷ []

abbrev tables : OrderState → Database
tables state = record {
  orders = (record { id = codes "o1"; store_id = codes "st"; state = state }) ∷ [];
  order_lines = line (codes "s1") (codes "k1") ∷ line (codes "s2") (codes "k2") ∷ [];
  tasks = [];
}

-- The inventory service accepts all calls, or only those for the first SKU.
abbrev accepting : Answers
accepting = record {
  accepts = λ r. true;
  stores = λ r. true;
  task_id = λ r. r.sku_id;
  next_run_at = 0;
  last_error = codes "down";
  correlation_id = codes "c1";
}

abbrev refusing : Answers
refusing = record accepting { accepts = λ r. text_eq r.sku_id (codes "s1") }

abbrev waiting : OrderState
waiting = record {
  status = Status.pending_payment;
  payment_status = PaymentStatus.mock_created;
  inventory_status = InventoryStatus.reserved;
}

confirm_refused :
    (transition_payment (codes "st") (codes "o1") confirm refusing (tables waiting)).0
    ≡ ok (record { state = next_state confirm true; compensation_queued = true })
unfolding get_order_state line_reservations get_order_reservations enqueue_inventory_compensation
    apply_inventory_transition settle_payment check_payment transition_handler transition_order
    transition_payment is_final_transition assert_order_transition text_eq
confirm_refused = refl

assert_order_transition_iff_example :
    (assert_order_transition waiting (next_state confirm true) ≡ ok tt)
    ↔ Moves waiting (next_state confirm true)
assert_order_transition_iff_example = assert_order_transition_iff waiting (next_state confirm true)

apply_inventory_transition-IsSettled_example :
    All
      (IsSettled
        (codes "st")
        (codes "o1")
        confirm
        refusing
        (apply_inventory_transition (codes "st") (codes "o1") confirm refusing lines []).1)
      lines
apply_inventory_transition-IsSettled_example =
    apply_inventory_transition-IsSettled (codes "st") (codes "o1") confirm refusing lines []

transition_payment_live_example :
    ((transition_payment (codes "st") (codes "o1") confirm refusing (tables waiting)).0
      ≡ ok (record { state = outcome confirm true; compensation_queued = true }))
    × (get_order_state
          (codes "st")
          (codes "o1")
          (transition_payment (codes "st") (codes "o1") confirm refusing (tables waiting)).1
        ≡ ok (outcome confirm true))
unfolding get_order_state line_reservations get_order_reservations apply_inventory_transition
    text_eq
transition_payment_live_example =
    transition_payment_live (codes "st") (codes "o1") confirm refusing (tables waiting) lines
      waiting refl (inl refl) refl

cancel_after_payment_example :
    get_order_state
      (codes "st")
      (codes "o1")
      (transition_payment
        (codes "st")
        (codes "o1")
        cancel
        accepting
        (tables (next_state confirm true))).1
    ≡ ok (desired_state_for_action cancel)
unfolding get_order_state line_reservations get_order_reservations text_eq
cancel_after_payment_example =
    cancel_after_payment (codes "st") (codes "o1") accepting (tables (next_state confirm true))
      lines (next_state confirm true) refl refl refl refl refl
