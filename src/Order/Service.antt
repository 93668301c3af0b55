-- ===== src/Order/Service.antt =====
-- The calls of the order service to the inventory service (services/order-service/src/main.ts,
-- `callInventory`).
use kuajing.Base.{if◌then◌else◌}
use kuajing.Base.Text.{Text}
use kuajing.Base.Failure.{
  Failure, http, thrown, Result, ok, err, idempotency_conflict, inventory_shortage, conflict,
  dependency_unavailable,
}
use kuajing.Inventory.Types.{ReservationResult}
use kuajing.Inventory.Contract.{is_partial}

pub data Endpoint : Type 0 where
  trying confirming cancelling : Endpoint

-- What becomes of a request within the 900 ms that `callInventory` waits: it is answered, it never
-- arrives, or it is served and its answer comes too late.
pub data Delivery : Type 0 where
  answered lost late : Delivery

-- The network, by the path and the idempotency key of a call.
abbrev pub Network : Type 0
Network = Endpoint → Text → Delivery

-- The error of a response that is not `ok`; the inventory service answers 409 for three codes.
abbrev pub translate : Failure → Failure
translate thrown = http dependency_unavailable
translate (http code) = elim code [
  | idempotency_conflict ↦ http idempotency_conflict
  | inventory_shortage ↦ http inventory_shortage
  | conflict ↦ http inventory_shortage
  | _ ↦ http dependency_unavailable
]

-- The payload is tested for its ids.
abbrev pub read_response : Result ReservationResult → Result ReservationResult
read_response (err e) = err (translate e)
read_response (ok res) = if is_partial res then err (http dependency_unavailable) else ok res

-- `callInventory` around an operation of the service.
abbrev pub call_inventory {ℓ} :
    {Store : Type ℓ}
    → Delivery
    → (Store → Result ReservationResult × Store)
    → Store
    → Result ReservationResult × Store
call_inventory answered operation st = (read_response (operation st).0, (operation st).1)
call_inventory late operation st = (err (http dependency_unavailable), (operation st).1)
call_inventory lost operation st = (err (http dependency_unavailable), st)
