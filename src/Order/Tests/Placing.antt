-- ===== src/Order/Tests/Placing.antt =====
-- Checkouts resolved and placed, against the inventory service's memory store
-- (services/order-service/src/main.ts, services/order-service/src/trusted-checkout.ts).
use kuajing.Base.{◌≡◌, refl, true, false, none, some, [], ◌∷◌, inl, find}
use kuajing.Base.Int.{pos, integer}
use kuajing.Base.Text.{Text, codes, text_eq, trim, trim_start, trimmed, is_space, matches, text_neq}
use kuajing.Base.Dict.{get}
use kuajing.Base.Failure.{ok, err, http, idempotency_conflict}
use kuajing.Inventory.Memory.Bookings.{new_store-booking}
use kuajing.Order.Request.{
  CheckoutRequest, Address, NormalizedRequest, normalize_checkout_request, normalize_line,
  normalize_lines, normalize_email, normalize_shipping_address, normalize_address_field,
}
use kuajing.Order.Request.Bounds.{IsValid, normalize_checkout_request-IsValid}
use kuajing.Order.Checkout.{line_key}
use kuajing.Order.Trusted.{
  CatalogAnswer, found, Checkout, resolve_trusted_checkout, resolve_lines, resolve_line,
  trusted_checkout_line, finish_line, read_texts, required_text, positive, non_negative,
}
use kuajing.Order.Trusted.Prices.{IsTrusted, resolve_trusted_checkout-IsTrusted}
use kuajing.Order.State.{pending_payment, mock_created, reserved}
use kuajing.Order.Orders.{OrderRow, Orders, Setting}
use kuajing.Order.Placement.{place_order, is_keyed}
use kuajing.Order.Placement.Stocked.{IsStocked, place_order-IsStocked}
use kuajing.Order.Placement.Again.{IsFound, place_order_conflict, place_order_once}
use kuajing.Order.Tests.{draw, service, service-IsLedger, reliable, line_of, start, cfg}

-- Case is left as it is: the texts below need no change.
abbrev same_case : Text → Text
same_case t = t

abbrev body : CheckoutRequest
body = record {
  customer_email = some (codes "a@b.cn");
  payment_method = none;
  shipping_address = record {
    country = some (codes "CN");
    province = some (codes "ZJ");
    city = some (codes "HZ");
    postal_code = some (codes "1");
    street = some (codes "W  1");
  };
  lines = record { slug = some (codes " tea"); quantity = integer (pos 2) } ∷ [];
}

abbrev catalog : Text → CatalogAnswer
catalog slug = found (record {
  slug = some (codes "tea");
  status = some (codes "active");
  sku_id = some (codes "s1");
  sku_code = some (codes "T-1");
  origin_country = some (codes "CN");
  amount_minor = integer (pos 100);
  currency = some (codes "USD");
  name = some (codes "Tea");
  material = some (codes "leaf");
  hs_code = some (codes "0902");
  customs_declaration = some (codes "tea");
  weight_grams = integer (pos 500);
})

abbrev address : Address
address = record {
  country = codes "CN";
  province = codes "ZJ";
  city = codes "HZ";
  postal_code = codes "1";
  street = codes "W 1";
}

abbrev normalized : NormalizedRequest
normalized = record {
  customer_email = codes "a@b.cn";
  payment_method = codes "mock";
  shipping_address = address;
  lines = record { slug = codes "tea"; quantity = 2 } ∷ [];
}

abbrev resolved : Checkout
resolved = record {
  customer_email = codes "a@b.cn";
  payment_method = codes "mock";
  shipping_address = address;
  lines = record (line_of (codes "s1") 2) { sku_code = codes "T-1" } ∷ [];
  currency = codes "USD";
}

passes : normalize_checkout_request same_case body ≡ ok normalized
unfolding normalize_checkout_request normalize_line normalize_lines normalize_email
    normalize_shipping_address normalize_address_field trimmed trim trim_start is_space
passes = refl

resolves : resolve_trusted_checkout same_case same_case catalog body ≡ ok resolved
unfolding resolve_trusted_checkout resolve_lines resolve_line trusted_checkout_line finish_line
    read_texts required_text positive non_negative normalize_checkout_request normalize_line
    normalize_lines normalize_email normalize_shipping_address normalize_address_field trimmed trim
    trim_start is_space text_eq matches
resolves = refl

normalize_checkout_request-IsValid_example : IsValid normalized
normalize_checkout_request-IsValid_example =
    normalize_checkout_request-IsValid same_case body passes

resolve_trusted_checkout-IsTrusted_example : IsTrusted same_case same_case catalog body resolved
resolve_trusted_checkout-IsTrusted_example =
    resolve_trusted_checkout-IsTrusted same_case same_case catalog body resolves

-- The digest of a checkout: here its e-mail address.
abbrev setting : Setting
setting = record {
  store_id = codes "store";
  storefront_url = codes "http";
  order_id = codes "order";
  order_number = codes "MOCK-1";
  created_at = codes "t";
  replay_answered = true;
  storage_answered = true;
  is_postgres = λ r. false;
  redirect_url = λ o. none;
  fingerprint = λ c. c.customer_email;
}

abbrev empty : Orders
empty = record { orders = []; order_lines = []; memory_orders = []; fingerprints = [] }

place_order-IsStocked_example :
    IsStocked service service-IsLedger reliable
      (λ k. refl)
      setting
      resolved
      (codes "o1")
      empty
      (place_order service reliable setting resolved (codes "o1") start empty)
unfolding get
place_order-IsStocked_example =
    place_order-IsStocked service service-IsLedger reliable (λ k. refl) setting resolved
      (codes "o1") empty refl refl start (λ k. inl refl) (refl, tt)
      (λ j. new_store-booking cfg (draw 0) (line_key (codes "o1") j))

-- A row of an earlier order under the key.
abbrev row : OrderRow
row = record {
  id = codes "earlier";
  store_id = codes "store";
  order_number = codes "MOCK-0";
  customer_email = codes "c@d.cn";
  shipping_address = address;
  state = record {
    status = pending_payment;
    payment_status = mock_created;
    inventory_status = reserved;
  };
  currency = codes "USD";
  total_minor = 300;
  idempotency_key = codes "o1";
  request_fingerprint = some (codes "c@d.cn");
  created_at = codes "t";
}

abbrev taken : Orders
taken = record empty { orders = row ∷ [] }

known : find (is_keyed (codes "store") (codes "o1")) taken.orders ≡ some row
unfolding text_eq
known = refl

place_order_conflict_example :
    place_order service reliable setting resolved (codes "o1") start taken
    ≡ (err (http idempotency_conflict), (start, taken))
unfolding text_eq
place_order_conflict_example =
    place_order_conflict service reliable setting resolved (codes "o1") start taken {row = row}
      known {t = codes "c@d.cn"} refl refl refl (text_neq (codes "c@d.cn") (codes "a@b.cn") refl)

place_order_once_example :
    let (answer, (_, db)) =
      place_order service reliable setting resolved (codes "o1") start taken in
    IsFound service reliable setting resolved (codes "o1") start taken {row = row} known answer
    × (db ≡ taken)
place_order_once_example =
    place_order_once service reliable setting resolved (codes "o1") start taken {row = row} known
      refl
