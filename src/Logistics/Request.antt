-- ===== src/Logistics/Request.antt =====
-- The request checks of services/logistics-service/src/fulfillment.ts. `toUpperCase` and
-- `toLowerCase` are parameters.
pub mod Bounds
use kuajing.Base.{
  ℕ, ◌≡◌, Bool, true, false, ◌&&◌, ◌||◌, not, Option, none, some, List, [], ◌∷◌, ◌++◌, leb, ltb,
  ◌==◌, length, take, if◌then◌else◌, or_else,
}
use kuajing.Base.Text.{Text, codes, text_eq, trim, trimmed, is_blank, is_space, non_empty}
use kuajing.Base.Failure.{Result, ok, err, ◌>>=◌, ◌>>◌, throw_if}
use kuajing.Inventory.Normalize.{invalid, is_uuid}
use kuajing.Logistics.Status.{
  Status, shipped, in_transit, customs, out_for_delivery, delivered, exception,
}

-- The body of a request: a field that is none is not a string there.
pub record CreateRequest : Type 0 where
  pub order_id : Option Text
  pub order_number : Option Text
  pub carrier_code : Option Text
  pub carrier_name : Option Text
  pub tracking_number : Option Text
  pub actor_id : Option Text
  pub idempotency_key : Option Text
  pub reason : Option Text

-- `CreateShipmentInput`, less the constant status.
pub record CreateInput : Type 0 where
  pub order_id : Text
  pub order_number : Text
  pub carrier_code : Text
  pub carrier_name : Text
  pub tracking_number : Text
  pub actor_id : Text
  pub idempotency_key : Text
  pub reason : Text

pub record UpdateRequest : Type 0 where
  pub status : Option Text
  pub reason : Option Text
  pub location : Option Text
  pub actor_id : Option Text

-- `ShipmentStatusUpdateInput`
pub record UpdateInput : Type 0 where
  pub status : Status
  pub reason : Text
  pub location : Text
  pub actor_id : Text

-- `requiredText`
unfoldable pub required_text : ℕ → Option Text → Result Text
required_text max_length value = elim (trimmed value) [
  | none ↦ err invalid
  | some t ↦ if ltb max_length (length t) then err invalid else ok t
]

-- `.replace(/\s+/g, "")`
abbrev pub without_space : Text → Text
without_space [] = []
without_space (c ∷ t) = let rest = without_space t in if is_space c then rest else c ∷ rest

-- `[A-Z0-9-]*`
abbrev pub all_tracking : Text → Bool
all_tracking [] = true
all_tracking (c ∷ t) =
    (leb b'A' c && leb c b'Z' || leb b'0' c && leb c b'9' || c == b'-') && all_tracking t

-- `/^[A-Z0-9-]{6,48}$/`
abbrev pub is_tracking_number : Text → Bool
is_tracking_number t = all_tracking t && leb 6 (length t) && leb (length t) 48

-- The status of a name, if it is one of `shipmentStatuses`.
abbrev pub status_of : Text → Option Status
status_of t =
    if text_eq t (codes "shipped")
    then some shipped
    else if text_eq t (codes "in_transit")
    then some in_transit
    else if text_eq t (codes "customs")
    then some customs
    else if text_eq t (codes "out_for_delivery")
    then some out_for_delivery
    else if text_eq t (codes "delivered")
    then some delivered
    else if text_eq t (codes "exception")
    then some exception
    else none

module _ (upper lower : Text → Text) where
  -- The first half of `normalizeCreateShipment`.
  unfoldable pub normalize_numbers : CreateRequest → Result (Text × Text)
  normalize_numbers input = do
    order_id ← required_text 36 input.order_id
    throw_if (not (is_uuid order_id)) invalid
    tracking ← required_text 48 input.tracking_number
    throw_if (not (is_tracking_number (upper (without_space tracking)))) invalid
    ok (order_id, upper (without_space tracking))

  -- `normalizeCreateShipment`
  unfoldable pub normalize_create_shipment : CreateRequest → Result CreateInput
  normalize_create_shipment input = do
    numbers ← normalize_numbers input
    order_number ← required_text 80 input.order_number
    carrier_code ← required_text 32 input.carrier_code
    carrier_name ← required_text 100 input.carrier_name
    actor_id ← required_text 120 input.actor_id
    idempotency_key ← required_text 200 input.idempotency_key
    reason ← required_text 500 input.reason
    ok (record {
      order_id = numbers.0;
      order_number = order_number;
      carrier_code = upper carrier_code;
      carrier_name = carrier_name;
      tracking_number = numbers.1;
      actor_id = actor_id;
      idempotency_key = idempotency_key;
      reason = reason;
    })

  -- `normalizeShipmentStatusUpdate`
  unfoldable pub normalize_shipment_status_update : UpdateRequest → Result UpdateInput
  normalize_shipment_status_update input = do
    name ← required_text 32 input.status
    status ← elim (status_of (lower name)) [ none ↦ err invalid | some s ↦ ok s ]
    reason ← required_text 500 input.reason
    actor_id ← required_text 120 input.actor_id
    ok (record {
      status = status;
      reason = reason;
      location = elim input.location [ none ↦ [] | some t ↦ take 200 (trim t) ];
      actor_id = actor_id;
    })

-- `notificationIdempotencyKey`
unfoldable pub notification_idempotency_key : Option Text → Text → Text → Text
notification_idempotency_key value tracking_number recipient =
    let trusted : Text = elim value [ none ↦ [] | some t ↦ take 200 (trim t) ] in
    or_else (non_empty trusted)
      (take 200 (codes "logistics-update-" ++ (tracking_number ++ (b'-' ∷ recipient))))
