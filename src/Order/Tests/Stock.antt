-- ===== src/Order/Tests/Stock.antt =====
-- Checkouts against the inventory service's memory store (services/order-service/src/main.ts,
-- services/inventory-service/src/main.ts).
use kuajing.Base.{◌≡◌, refl, true, false, none, List, [], ◌∷◌, inl, if◌then◌else◌}
use kuajing.Base.Decimal.{show, digits}
use kuajing.Base.Int.{pos, ◌+ℤ◌, ◌-ℤ◌}
use kuajing.Base.Text.{codes, text_eq}
use kuajing.Base.Dict.{get, set}
use kuajing.Base.Failure.{Result, ok, err, http, dependency_unavailable}
use kuajing.Inventory.Types.{ReservationResult, cancelled, sellable, assert_reservation_replay}
use kuajing.Inventory.Contract.{is_open, IsLedger}
use kuajing.Inventory.Memory.{
  new_store, ensure_item, try_reserve, reserve_new, replay, result_from_memory, cancel,
}
use kuajing.Inventory.Memory.Refines.{memory_service-IsLedger}
use kuajing.Inventory.Memory.Bookings.{new_store-booking}
use kuajing.Order.Service.{answered, late, lost, trying, Network}
use kuajing.Order.Checkout.{Line, line_key, request_of, reserve_inventory}
use kuajing.Order.Tests.{cfg, draw, service, service-IsLedger, reliable, line_of, start}
use kuajing.Order.Checkout.Leaks.{reserve_inventory_late, reserve_inventory_retry}
use kuajing.Order.Checkout.AllOrNothing.{reserve_inventory-IsAllOrNothing, IsAllOrNothing}

-- Five pieces of each of two articles; nine pieces of the second are more than there are.
abbrev lines : List Line
lines = line_of (codes "s1") 5 ∷ line_of (codes "s2") 9 ∷ []

abbrev checked_out : Result (List ReservationResult) × service.Store
checked_out = reserve_inventory service reliable (codes "o1") (codes "order") lines start

-- The second answer never comes, or the second call is lost.
abbrev slow : Network
slow trying k = late
slow path k = answered

abbrev failing : Network
failing trying k = if text_eq k (line_key (codes "o1") 1) then lost else answered
failing path k = answered

-- The store after a checkout of the first line, and after its cancellation.
abbrev held : service.Store
held =
    (service.try_reserve (request_of (codes "o1") (codes "order") 0 (line_of (codes "s1") 5))
      start).1

abbrev given_back : service.Store
given_back = (service.cancel (line_key (codes "o1") 0) held).1

abbrev answer : service.Store → Result ReservationResult
answer st =
    (service.try_reserve (request_of (codes "o1") (codes "again") 0 (line_of (codes "s1") 5)) st).0

abbrev result_of : Result ReservationResult → ReservationResult
result_of (ok res) = res
result_of (err e) = record {
  reservation_id = [];
  status = cancelled;
  sku_id = [];
  warehouse_id = [];
  order_id = none;
  qty = 0;
  stock = record {
    available_qty = pos 0;
    reserved_qty = pos 0;
    safety_qty = pos 0;
    inventory_version = 0;
  };
  idempotency_key = [];
}

reserve_inventory_late_example :
    let (a, st) =
      reserve_inventory service slow
        (codes "o1")
        (codes "again")
        (line_of (codes "s1") 5 ∷ [])
        start in
    (a ≡ err (http dependency_unavailable))
    × (is_open (service.booking (line_key (codes "o1") 0) st) ≡ true)
unfolding try_reserve reserve_new result_from_memory ensure_item new_store sellable get set text_eq
    ◌+ℤ◌ ◌-ℤ◌
reserve_inventory_late_example =
    reserve_inventory_late service service-IsLedger slow (codes "o1") (codes "again")
      (line_of (codes "s1") 5) [] start {res = result_of (answer start)} refl refl refl

reserve_inventory-IsAllOrNothing_example :
    IsAllOrNothing service service-IsLedger reliable
      (λ k. refl)
      (codes "o1")
      (codes "order")
      2
      checked_out
reserve_inventory-IsAllOrNothing_example =
    reserve_inventory-IsAllOrNothing service service-IsLedger reliable (λ k. refl) (codes "o1")
      (codes "order") lines start (λ k. inl refl) (refl, (refl, tt))
      (λ j. new_store-booking cfg (draw 0) (line_key (codes "o1") j))

memory_service-IsLedger_example : IsLedger service
memory_service-IsLedger_example = memory_service-IsLedger cfg draw refl (λ n. refl)

reserve_inventory_retry_example :
    let (a, st) =
      reserve_inventory service failing
        (codes "o1")
        (codes "again")
        (line_of (codes "s1") 5 ∷ line_of (codes "s2") 1 ∷ [])
        held in
    (a ≡ err (http dependency_unavailable))
    × (is_open (service.booking (line_key (codes "o1") 0) st) ≡ false)
unfolding try_reserve reserve_new replay result_from_memory ensure_item new_store sellable get set
    text_eq ◌+ℤ◌ ◌-ℤ◌ assert_reservation_replay show digits
reserve_inventory_retry_example =
    reserve_inventory_retry service service-IsLedger failing (codes "o1") (codes "again")
      (line_of (codes "s1") 5) (line_of (codes "s2") 1) [] held {res = result_of (answer held)} refl
      refl refl refl refl refl refl
