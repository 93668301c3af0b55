-- ===== src/Order/State.antt =====
-- The states of an order and the test of a transition
-- (services/order-service/src/main.ts).
use kuajing.Base.{Bool, true, false, ◌&&◌, ◌||◌, ◌≡◌, ◌⊎◌, inl, inr, ◌↔◌, arith, if◌then◌else◌}
use kuajing.Base.Failure.{http, Result, ok, err, conflict}

pub data Status : Type 0 where
  pending_payment paid cancelled compensating : Status

pub data PaymentStatus : Type 0 where
  mock_created paid cancelled : PaymentStatus

pub data InventoryStatus : Type 0 where
  reserved confirmed cancelled compensation_pending : InventoryStatus

-- `OrderStateSnapshot`, less the id and the storage mode.
pub record OrderState : Type 0 where
  pub status : Status
  pub payment_status : PaymentStatus
  pub inventory_status : InventoryStatus

pub data Action : Type 0 where
  confirm cancel : Action

abbrev pub status_eq : Status → Status → Bool
status_eq pending_payment pending_payment = true
status_eq Status.paid Status.paid = true
status_eq Status.cancelled Status.cancelled = true
status_eq compensating compensating = true
status_eq _ _ = false

abbrev pub payment_eq : PaymentStatus → PaymentStatus → Bool
payment_eq mock_created mock_created = true
payment_eq PaymentStatus.paid PaymentStatus.paid = true
payment_eq PaymentStatus.cancelled PaymentStatus.cancelled = true
payment_eq _ _ = false

abbrev pub inventory_eq : InventoryStatus → InventoryStatus → Bool
inventory_eq reserved reserved = true
inventory_eq confirmed confirmed = true
inventory_eq InventoryStatus.cancelled InventoryStatus.cancelled = true
inventory_eq compensation_pending compensation_pending = true
inventory_eq _ _ = false

-- `isExceptionState`
unfoldable pub is_exception_state : Status → InventoryStatus → Bool
is_exception_state status inventory =
    status_eq status compensating || inventory_eq inventory compensation_pending

abbrev pub is_state : Status → PaymentStatus → InventoryStatus → OrderState → Bool
is_state s p i o =
    status_eq o.status s && payment_eq o.payment_status p && inventory_eq o.inventory_status i

-- `isFinalTransition`
unfoldable pub is_final_transition : OrderState → Action → Bool
is_final_transition o confirm = is_state Status.paid PaymentStatus.paid confirmed o
is_final_transition o cancel =
    is_state Status.cancelled PaymentStatus.cancelled InventoryStatus.cancelled o

-- `desiredStateForAction`
abbrev pub desired_state_for_action : Action → OrderState
desired_state_for_action confirm = record {
  status = Status.paid;
  payment_status = PaymentStatus.paid;
  inventory_status = confirmed;
}
desired_state_for_action cancel = record {
  status = Status.cancelled;
  payment_status = PaymentStatus.cancelled;
  inventory_status = InventoryStatus.cancelled;
}

abbrev is_live : Status → Bool
is_live status = status_eq status pending_payment || status_eq status compensating

-- The three targets that a live order may take; the two blocks of tests in the source are alike.
abbrev is_target : OrderState → Bool
is_target next =
    is_state Status.paid PaymentStatus.paid confirmed next
    || is_state Status.cancelled PaymentStatus.cancelled InventoryStatus.cancelled next
    || status_eq next.status compensating && inventory_eq next.inventory_status compensation_pending

-- `assertOrderTransition`
unfoldable pub assert_order_transition : OrderState → OrderState → Result (Unit {0})
assert_order_transition current next =
    if is_state next.status next.payment_status next.inventory_status current
    then ok tt
    else if is_live current.status && is_target next
    then ok tt
    else err (http conflict)

-- An order that awaits its payment or the compensation of its stock.
abbrev pub IsLive : OrderState → Type 0
IsLive o = (o.status ≡ pending_payment) ⊎ (o.status ≡ compensating)

-- Paid and confirmed, cancelled throughout, or awaiting the compensation of its stock.
abbrev pub IsTarget : OrderState → Type 0
IsTarget o =
    (o ≡ desired_state_for_action confirm)
    ⊎ (o ≡ desired_state_for_action cancel)
    ⊎ ((o.status ≡ compensating) × (o.inventory_status ≡ compensation_pending))

-- The transitions of the state machine.
abbrev pub Moves : OrderState → OrderState → Type 0
Moves current next = (next ≡ current) ⊎ (IsLive current × IsTarget next)

passed :
    (current next : OrderState) → assert_order_transition current next ≡ ok tt → Moves current next
unfolding assert_order_transition
passed current next h = ground arith

stays : (o : OrderState) → assert_order_transition o o ≡ ok tt
unfolding assert_order_transition
stays o = ground arith

passes :
    (current next : OrderState) → Moves current next → assert_order_transition current next ≡ ok tt
unfolding assert_order_transition
passes current next (inl e) = rw e (stays current)
passes current next (inr h) = ground arith

-- A transition passes exactly when the order stays as it is, or when an order that awaits payment
-- or compensation becomes paid and confirmed, cancelled throughout, or awaits compensation.
pub assert_order_transition_iff :
    (current next : OrderState)
    → (assert_order_transition current next ≡ ok tt) ↔ Moves current next
unfolding assert_order_transition
assert_order_transition_iff current next = (λ h. passed current next h, passes current next)
