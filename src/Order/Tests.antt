-- ===== src/Order/Tests.antt =====
-- An inventory service, a network and orders that the runs of the order service use
-- (services/order-service/src/main.ts).
mod Stock
mod Placing
use kuajing.Base.{ℕ, ◌≡◌, refl, Option, none, some, List, [], ◌∷◌}
use kuajing.Base.Int.{pos}
use kuajing.Base.Text.{Text, codes}
use kuajing.Inventory.Types.{Config, Fresh}
use kuajing.Inventory.Contract.{InventoryService, IsLedger}
use kuajing.Inventory.Memory.{new_store}
use kuajing.Inventory.Memory.Refines.{memory_service, memory_service-IsLedger}
use kuajing.Inventory.Memory.Bookings.{new_store-booking}
use kuajing.Order.Service.{answered, Network}
use kuajing.Order.Checkout.{Line}

abbrev pub cfg : Config
cfg = record {
  store_id = codes "store";
  default_warehouse_id = codes "w1";
  default_sku_id = codes "s1";
  default_available_qty = pos 10;
  default_safety_qty = pos 2;
}

abbrev pub draw : ℕ → Fresh
draw n = record {
  item_id = codes "i";
  reservation_id = codes "r";
  event_id = codes "e";
  now = codes "t";
}

abbrev pub service : InventoryService
service = memory_service cfg draw

pub service-IsLedger : IsLedger service
service-IsLedger = memory_service-IsLedger cfg draw refl (λ n. refl)

abbrev pub reliable : Network
reliable path k = answered

abbrev pub line_of : Text → ℕ → Line
line_of sku qty = record {
  slug = codes "tea";
  sku_id = sku;
  sku_code = sku;
  title = codes "Tea";
  hs_code = codes "0902";
  material = codes "leaf";
  customs_declaration = codes "tea";
  origin_country = codes "CN";
  weight_grams = 500;
  quantity = qty;
  unit_price_minor = 100;
  currency = codes "USD";
}

abbrev pub start : service.Store
start = (new_store cfg (draw 0), 0)
