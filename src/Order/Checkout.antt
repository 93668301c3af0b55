-- ===== src/Order/Checkout.antt =====
-- The stock of a checkout: `reserveInventory` and `cancelInventory` of
-- services/order-service/src/main.ts, on any inventory service.
pub mod Cancelling
pub mod AllOrNothing
pub mod Booked
pub mod Leaks
use kuajing.Base.{
  ℕ, suc, ◌+◌, ◌≡◌, Bool, true, false, Option, none, some, List, [], ◌∷◌, ◌++◌, if◌then◌else◌,
}
use kuajing.Base.Decimal.{show}
use kuajing.Base.Text.{Text, codes}
use kuajing.Base.Failure.{Failure, Result, ok, err}
use kuajing.Inventory.Types.{
  ReservationStatus, reserved, confirmed, cancelled, ReservationInput, ReservationResult,
}
use kuajing.Inventory.Contract.{InventoryService}
use kuajing.Order.Service.{Network, trying, cancelling, call_inventory}

-- `NormalizedCheckoutLine`
pub record Line : Type 0 where
  pub slug : Text
  pub sku_id : Text
  pub sku_code : Text
  pub title : Text
  pub hs_code : Text
  pub material : Text
  pub customs_declaration : Text
  pub origin_country : Text
  pub weight_grams : ℕ
  pub quantity : ℕ
  pub unit_price_minor : ℕ
  pub currency : Text

-- `${orderIdempotencyKey}:inventory:${index}`
abbrev pub line_key : Text → ℕ → Text
line_key order_key index = order_key ++ (codes ":inventory:" ++ show index)

abbrev pub request_of : Text → Text → ℕ → Line → ReservationInput
request_of order_key order_id index line = record {
  sku_id = line.sku_id;
  warehouse_id = none;
  order_id = some order_id;
  qty = line.quantity;
  idempotency_key = line_key order_key index;
}

abbrev pub is_reserved : ReservationStatus → Bool
is_reserved reserved = true
is_reserved confirmed = false
is_reserved cancelled = false

module _ (s : InventoryService) (net : Network) where
  -- `cancelInventory`: what a call returns or throws is ignored. The calls come one after the other
  -- here; the source starts them at once.
  pub cancel_inventory : List ReservationResult → s.Store → s.Store
  cancel_inventory [] st = st
  cancel_inventory (r ∷ rs) st =
      let key = r.idempotency_key in
      let cancelled_one = (call_inventory (net cancelling key) (s.cancel key) st).1 in
      cancel_inventory rs (if is_reserved r.status then cancelled_one else st)

  -- The loop of `reserveInventory` from an index on, with the reservations made so far.
  pub reserve_lines :
      Text
      → Text
      → ℕ
      → List Line
      → List ReservationResult
      → s.Store
      → Result (List ReservationResult) × s.Store
  reserve_lines order_key order_id index [] made st = (ok made, st)
  reserve_lines order_key order_id index (line ∷ lines) made st =
      let key = line_key order_key index in
      let (answer, st') =
        call_inventory (net trying key) (s.try_reserve (request_of order_key order_id index line))
          st in
      elim answer [
        | ok res ↦ reserve_lines order_key order_id (index + 1) lines (made ++ (res ∷ [])) st'
        | err e ↦ (err e, cancel_inventory made st')
      ]

  -- `reserveInventory`
  pub reserve_inventory :
      Text → Text → List Line → s.Store → Result (List ReservationResult) × s.Store
  reserve_inventory order_key order_id lines = reserve_lines order_key order_id 0 lines []
