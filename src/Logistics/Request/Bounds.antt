-- ===== src/Logistics/Request/Bounds.antt =====
-- What a shipment request that passes the checks satisfies
-- (services/logistics-service/src/fulfillment.ts).
use kuajing.Base.{ℕ, ◌≤◌, ◌≡◌, subst, Bool, true, false, not, Option, none, some, length, arith}
use kuajing.Base.Text.{Text, trimmed, is_blank}
use kuajing.Base.Failure.{ok, ok-injective, bind_ok, throw_if_passed}
use kuajing.Inventory.Normalize.{invalid, is_uuid}
use kuajing.Logistics.Request.{
  CreateRequest, CreateInput, required_text, without_space, is_tracking_number, normalize_numbers,
  normalize_create_shipment,
}

-- A text with something in it, of at most so many code units.
abbrev pub IsWithin : ℕ → Text → Type 0
IsWithin n t = (length t ≤ n) × (is_blank t ≡ false)

required_text-IsWithin :
    (n : ℕ) (value : Option Text) {t : Text} → required_text n value ≡ ok t → IsWithin n t
unfolding required_text trimmed
required_text-IsWithin n none h = cc
required_text-IsWithin n (some v) h = ground arith

abbrev pub IsValid : CreateInput → Type 0
IsValid input =
    (is_uuid input.order_id ≡ true)
    × (is_tracking_number input.tracking_number ≡ true)
    × IsWithin 80 input.order_number
    × IsWithin 100 input.carrier_name
    × IsWithin 120 input.actor_id
    × IsWithin 200 input.idempotency_key
    × IsWithin 500 input.reason

module _ (upper lower : Text → Text) where
  abbrev IsNumbered : Text × Text → Type 0
  IsNumbered (order_id, tracking_number) =
      (is_uuid order_id ≡ true) × (is_tracking_number tracking_number ≡ true)

  normalize_numbers-IsNumbered :
      (input : CreateRequest) {p : Text × Text}
      → normalize_numbers upper lower input ≡ ok p
      → IsNumbered p
  unfolding normalize_numbers
  normalize_numbers-IsNumbered input h =
      let (order_id, e1, h1) = bind_ok (required_text 36 input.order_id) _ h in
      let (uuid, h2) = throw_if_passed (not (is_uuid order_id)) invalid _ h1 in
      let (tracking, e3, h3) = bind_ok (required_text 48 input.tracking_number) _ h2 in
      let (number, h4) =
        throw_if_passed (not (is_tracking_number (upper (without_space tracking)))) invalid _ h3 in
      subst IsNumbered (ok-injective h4) (negated uuid, negated number)
    where
      negated : {b : Bool} → not b ≡ false → b ≡ true
      negated {b} e = ground arith

  -- A request for a shipment that passes its checks names an order by a UUID and a tracking number
  -- of 6 to 48 capitals, digits and dashes; its other texts are filled in and within their bounds.
  pub normalize_create_shipment-IsValid :
      (request : CreateRequest) {input : CreateInput}
      → normalize_create_shipment upper lower request ≡ ok input
      → IsValid input
  unfolding normalize_create_shipment
  normalize_create_shipment-IsValid request h =
      let (numbers, e1, h1) = bind_ok (normalize_numbers upper lower request) _ h in
      let (order_number, e2, h2) = bind_ok (required_text 80 request.order_number) _ h1 in
      let (carrier_code, e3, h3) = bind_ok (required_text 32 request.carrier_code) _ h2 in
      let (carrier_name, e4, h4) = bind_ok (required_text 100 request.carrier_name) _ h3 in
      let (actor_id, e5, h5) = bind_ok (required_text 120 request.actor_id) _ h4 in
      let (key, e6, h6) = bind_ok (required_text 200 request.idempotency_key) _ h5 in
      let (reason, e7, h7) = bind_ok (required_text 500 request.reason) _ h6 in
      subst IsValid (ok-injective h7) (
        (normalize_numbers-IsNumbered request e1).0,
        (normalize_numbers-IsNumbered request e1).1,
        required_text-IsWithin 80 request.order_number e2,
        required_text-IsWithin 100 request.carrier_name e4,
        required_text-IsWithin 120 request.actor_id e5,
        required_text-IsWithin 200 request.idempotency_key e6,
        required_text-IsWithin 500 request.reason e7,
      )
