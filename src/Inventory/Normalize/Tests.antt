-- ===== src/Inventory/Normalize/Tests.antt =====
-- Requests that pass and fail their checks (services/inventory-service/src/main.ts).
use kuajing.Base.{ℕ, ◌≡◌, refl, none, some}
use kuajing.Base.Int.{pos, integer}
use kuajing.Base.Text.{Text, codes, is_space, trim_start, trim, trimmed, matches}
use kuajing.Base.Failure.{ok, err}
use kuajing.Inventory.Types.{ReservationRequest, ReservationInput}
use kuajing.Inventory.Normalize.{
  invalid, normalize_uuid, normalize_optional_uuid, normalize_quantity, normalize_idempotency_key,
  normalize_request,
}

abbrev sku : Text
sku = codes "00000000-0000-4000-8000-000000002001"

abbrev body : ℕ → ReservationRequest
body qty = record {
  sku_id = some sku;
  warehouse_id = none;
  order_id = none;
  qty = integer (pos qty);
  idempotency_key = some (codes " k1 ");
}

abbrev passed : ReservationInput
passed = record {
  sku_id = sku;
  warehouse_id = none;
  order_id = none;
  qty = 3;
  idempotency_key = codes "k1";
}

passes : normalize_request (body 3) none ≡ ok passed
unfolding normalize_request normalize_uuid normalize_optional_uuid normalize_quantity
    normalize_idempotency_key trimmed trim trim_start is_space matches
passes = refl

too_many : normalize_request (body 1000) none ≡ err invalid
unfolding normalize_request normalize_uuid normalize_optional_uuid normalize_quantity
    normalize_idempotency_key trimmed trim trim_start is_space matches
too_many = refl
