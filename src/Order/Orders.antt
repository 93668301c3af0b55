-- ===== src/Order/Orders.antt =====
-- The orders of services/order-service/src/main.ts: `MockCheckoutOrder`, the rows of the tables, and
-- `buildMockOrder` and `insertOrder`.
use kuajing.Base.{ℕ, ◌+◌, ◌≡◌, ◌⊎◌, inl, inr, refl, Bool, Option, some, List, [], ◌∷◌, ◌++◌}
use kuajing.Base.Text.{Text, codes}
use kuajing.Base.Dict.{Dict}
use kuajing.Inventory.Types.{ReservationResult}
use kuajing.Order.State.{OrderState, pending_payment, mock_created, reserved}
use kuajing.Order.Request.{Address}
use kuajing.Order.Checkout.{Line, line_key}
use kuajing.Order.Trusted.{Checkout, total_minor}

pub data Mode : Type 0 where
  postgres memory : Mode

pub Mode-cases : (m : Mode) → (m ≡ postgres) ⊎ (m ≡ memory)
Mode-cases postgres = inl refl
Mode-cases memory = inr refl

pub data PaymentMode : Type 0 where
  provider local_fallback : PaymentMode

-- `MockCheckoutOrder`
pub record Order : Type 0 where
  pub order_id : Text
  pub order_number : Text
  pub customer_email : Text
  pub state : OrderState
  pub storage_mode : Mode
  pub inventory_mode : Mode
  pub payment_mode : PaymentMode
  pub total_minor : ℕ
  pub currency : Text
  pub shipping_address : Address
  pub payment_redirect_url : Text
  pub idempotency_key : Text
  pub created_at : Text
  pub inventory_reservations : List ReservationResult
  pub lines : List Line

-- A row of `orders`.
pub record OrderRow : Type 0 where
  pub id : Text
  pub store_id : Text
  pub order_number : Text
  pub customer_email : Text
  pub shipping_address : Address
  pub state : OrderState
  pub currency : Text
  pub total_minor : ℕ
  pub idempotency_key : Text
  pub request_fingerprint : Option Text
  pub created_at : Text

-- A row of `order_lines`, less its id; `line` holds the columns that are copied from the line.
pub record LineRow : Type 0 where
  pub store_id : Text
  pub order_id : Text
  pub inventory_version_snapshot : ℕ
  pub inventory_reservation_key_snapshot : Text
  pub line : Line

-- The tables, and the two maps of the orders in memory.
pub record Orders : Type 0 where
  pub orders : List OrderRow
  pub order_lines : List LineRow
  pub memory_orders : Dict Order
  pub fingerprints : Dict Text

-- What one request meets: the store id, the ids and times drawn, whether the two database steps are
-- answered, which reservations are of PostgreSQL, and the redirect of the payment service.
pub record Setting : Type 0 where
  pub store_id : Text
  pub storefront_url : Text
  pub order_id : Text
  pub order_number : Text
  pub created_at : Text
  pub replay_answered : Bool
  pub storage_answered : Bool
  pub is_postgres : ReservationResult → Bool
  pub redirect_url : Order → Option Text
  pub fingerprint : Checkout → Text

-- `paymentRedirectUrl`
abbrev pub payment_redirect_url : Setting → Text → Text
payment_redirect_url env order_id =
    env.storefront_url ++ (codes "/payment-result?mock=success&orderId=" ++ order_id)

-- `buildMockOrder`
abbrev pub build_mock_order :
    Setting → Checkout → Text → Mode → Mode → List ReservationResult → Order
build_mock_order env checkout key storage_mode inventory_mode reservations = record {
  order_id = env.order_id;
  order_number = env.order_number;
  customer_email = checkout.customer_email;
  state = record {
    status = pending_payment;
    payment_status = mock_created;
    inventory_status = reserved;
  };
  storage_mode = storage_mode;
  inventory_mode = inventory_mode;
  payment_mode = local_fallback;
  total_minor = total_minor checkout.lines;
  currency = checkout.currency;
  shipping_address = checkout.shipping_address;
  payment_redirect_url = payment_redirect_url env env.order_id;
  idempotency_key = key;
  created_at = env.created_at;
  inventory_reservations = reservations;
  lines = checkout.lines;
}

-- The order of a row that the key finds again.
abbrev pub order_of_row : Setting → OrderRow → Order
order_of_row env row = record {
  order_id = row.id;
  order_number = row.order_number;
  customer_email = row.customer_email;
  state = row.state;
  storage_mode = postgres;
  inventory_mode = postgres;
  payment_mode = local_fallback;
  total_minor = row.total_minor;
  currency = row.currency;
  shipping_address = row.shipping_address;
  payment_redirect_url = payment_redirect_url env row.id;
  idempotency_key = row.idempotency_key;
  created_at = row.created_at;
  inventory_reservations = [];
  lines = [];
}

abbrev pub row_of : Setting → Checkout → Order → OrderRow
row_of env checkout order = record {
  id = order.order_id;
  store_id = env.store_id;
  order_number = order.order_number;
  customer_email = checkout.customer_email;
  shipping_address = checkout.shipping_address;
  state = order.state;
  currency = order.currency;
  total_minor = order.total_minor;
  idempotency_key = order.idempotency_key;
  request_fingerprint = some (env.fingerprint checkout);
  created_at = order.created_at;
}

-- `inventoryVersionSnapshots[index] ?? 1`
abbrev pub version_at : List ℕ → ℕ
version_at [] = 1
version_at (v ∷ vs) = v

abbrev pub next_versions : List ℕ → List ℕ
next_versions [] = []
next_versions (v ∷ vs) = vs

-- The rows of the lines from an index on, in the order of their insertion.
abbrev pub line_rows : Setting → Text → ℕ → List Line → List ℕ → List LineRow
line_rows env key index [] versions = []
line_rows env key index (line ∷ lines) versions =
    record {
      store_id = env.store_id;
      order_id = env.order_id;
      inventory_version_snapshot = version_at versions;
      inventory_reservation_key_snapshot = line_key key index;
      line = line;
    }
    ∷ line_rows env key (index + 1) lines (next_versions versions)

-- `insertOrder`
abbrev pub insert_order : Setting → Checkout → Text → Order → List ℕ → Orders → Orders
insert_order env checkout key order versions db = record db {
  orders = db.orders ++ (row_of env checkout order ∷ []);
  order_lines = db.order_lines ++ line_rows env key 0 checkout.lines versions;
}

abbrev pub versions_of : List ReservationResult → List ℕ
versions_of [] = []
versions_of (r ∷ rs) = r.stock.inventory_version ∷ versions_of rs
