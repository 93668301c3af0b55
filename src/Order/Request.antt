-- ===== src/Order/Request.antt =====
-- The request checks of services/order-service/src/main.ts. `toLowerCase` is a parameter: it
-- follows the Unicode tables of the engine.
pub mod Bounds
use kuajing.Base.{
  ℕ, ◌≡◌, Bool, true, false, ◌&&◌, ◌||◌, not, Option, none, some, List, [], ◌∷◌, map, leb, ltb,
  ◌==◌, length, if◌then◌else◌, or_else,
}
use kuajing.Base.Int.{pos, negsuc, JsNumber, integer, not_integer}
use kuajing.Base.Text.{Text, codes, text_eq, trim, trimmed, is_blank, is_space}
use kuajing.Base.Failure.{Result, ok, err, ◌>>=◌, ◌>>◌, throw_if}
use kuajing.Inventory.Normalize.{invalid, is_uuid}
use kuajing.Order.State.{Action}

-- `MockCheckoutLine`, as far as the service reads it, with `Number(line.quantity)`.
pub record BrowserLine : Type 0 where
  pub slug : Option Text
  pub quantity : JsNumber

-- `shippingAddress` of `MockCheckoutRequest`.
pub record BrowserAddress : Type 0 where
  pub country : Option Text
  pub province : Option Text
  pub city : Option Text
  pub postal_code : Option Text
  pub street : Option Text

-- `MockCheckoutRequest`; an address that is missing has no fields, and lines that are missing are
-- none.
pub record CheckoutRequest : Type 0 where
  pub customer_email : Option Text
  pub payment_method : Option Text
  pub shipping_address : BrowserAddress
  pub lines : List BrowserLine

-- `RequestedCheckoutLine`
pub record RequestedLine : Type 0 where
  pub slug : Text
  pub quantity : ℕ

-- `ShippingAddressSnapshot`
pub record Address : Type 0 where
  pub country : Text
  pub province : Text
  pub city : Text
  pub postal_code : Text
  pub street : Text

-- What `normalizeCheckoutRequest` returns.
pub record NormalizedRequest : Type 0 where
  pub customer_email : Text
  pub payment_method : Text
  pub shipping_address : Address
  pub lines : List RequestedLine

-- `[^\s@]`
abbrev pub is_plain : ℕ → Bool
is_plain c = not (is_space c) && not (c == b'@')

abbrev pub all_plain : Text → Bool
all_plain [] = true
all_plain (c ∷ t) = is_plain c && all_plain t

-- A dot with a character after it.
abbrev pub has_dot : Text → Bool
has_dot [] = false
has_dot (c ∷ t) = c == b'.' && not (is_blank t) || has_dot t

-- `[^\s@]+\.[^\s@]+$`
abbrev pub is_domain : Text → Bool
is_domain [] = false
is_domain (c ∷ t) = all_plain (c ∷ t) && has_dot t

-- `[^\s@]*@[^\s@]+\.[^\s@]+$`: no class admits the `@`, so it is the first one.
abbrev pub is_mailbox : Text → Bool
is_mailbox [] = false
is_mailbox (c ∷ t) = if c == b'@' then is_domain t else is_plain c && is_mailbox t

-- `/^[^\s@]+@[^\s@]+\.[^\s@]+$/`
abbrev pub is_email : Text → Bool
is_email [] = false
is_email (c ∷ t) = is_plain c && is_mailbox t

unfoldable pub normalize_email : (Text → Text) → Option Text → Result Text
normalize_email lower none = err invalid
normalize_email lower (some t) =
    let email = lower (trim t) in
    if is_blank email || not (is_email email) then err invalid else ok email

-- `.replace(/\s+/g, " ")`, within a run of white space or not.
abbrev pub collapse_from : Bool → Text → Text
collapse_from run [] = []
collapse_from run (c ∷ t) =
    let within = collapse_from true t in
    let after = collapse_from false t in
    if is_space c then (if run then within else b' ' ∷ within) else c ∷ after

unfoldable pub normalize_address_field : ℕ → Option Text → Result Text
normalize_address_field max_length none = err invalid
normalize_address_field max_length (some t) =
    let normalized = collapse_from false (trim t) in
    if is_blank normalized || ltb max_length (length normalized) then err invalid else ok normalized

unfoldable pub normalize_shipping_address : BrowserAddress → Result Address
normalize_shipping_address value = do
  country ← normalize_address_field 120 value.country
  province ← normalize_address_field 120 value.province
  city ← normalize_address_field 120 value.city
  postal_code ← normalize_address_field 40 value.postal_code
  street ← normalize_address_field 240 value.street
  ok (record {
    country = country;
    province = province;
    city = city;
    postal_code = postal_code;
    street = street;
  })

unfoldable pub normalize_order_id : Option Text → Result Text
normalize_order_id value = elim (trimmed value) [
  | none ↦ err invalid
  | some t ↦ if is_uuid t then ok t else err invalid
]

unfoldable pub normalize_actor_id : Option Text → Result Text
normalize_actor_id value =
    let actor_id = or_else (trimmed value) (codes "local-admin") in
    if ltb 120 (length actor_id) then err invalid else ok actor_id

-- A text that is required and has at most so many code units: `normalizeReason`, and
-- `normalizeAdminIdempotencyKey`.
abbrev pub required_within : ℕ → Option Text → Result Text
required_within max_length value = elim (trimmed value) [
  | none ↦ err invalid
  | some t ↦ if ltb max_length (length t) then err invalid else ok t
]

abbrev pub normalize_reason : Option Text → Result Text
normalize_reason = required_within 500

abbrev pub normalize_admin_idempotency_key : Option Text → Result Text
normalize_admin_idempotency_key = required_within 160

-- `ManualCompensationRequest`; an action that is neither is none.
pub record ManualRequest : Type 0 where
  pub action : Option Action
  pub actor_id : Option Text
  pub reason : Option Text

-- What `normalizeManualCompensation` returns.
pub record ManualInput : Type 0 where
  pub action : Action
  pub actor_id : Text
  pub reason : Text

unfoldable pub normalize_manual_compensation : ManualRequest → Option Text → Result ManualInput
normalize_manual_compensation input actor_header = elim input.action [
  | none ↦ err invalid
  | some action ↦ do
    actor_id ← normalize_actor_id (elim actor_header [ some a ↦ some a | none ↦ input.actor_id ])
    reason ← normalize_reason input.reason
    ok (record { action = action; actor_id = actor_id; reason = reason })
]

unfoldable pub normalize_line : BrowserLine → Result RequestedLine
normalize_line line = elim (trimmed line.slug) [
  | none ↦ err invalid
  | some slug ↦ elim line.quantity [
    | not_integer ↦ err invalid
    | integer (negsuc n) ↦ err invalid
    | integer (pos n) ↦
        if n == 0 || ltb 99 n then err invalid else ok (record { slug = slug; quantity = n })
  ]
]

-- `lines.map(normalizeLine)`
unfoldable pub normalize_lines : List BrowserLine → Result (List RequestedLine)
normalize_lines [] = ok []
normalize_lines (line ∷ lines) =
    let rest = normalize_lines lines in
    do first ← normalize_line line; others ← rest; ok (first ∷ others)

abbrev pub member : Text → List Text → Bool
member t [] = false
member t (s ∷ ss) = text_eq t s || member t ss

-- `new Set(texts)`
abbrev pub as_set : List Text → List Text
as_set [] = []
as_set (t ∷ ts) = let set = as_set ts in if member t set then set else t ∷ set

abbrev pub slug_of : RequestedLine → Text
slug_of line = line.slug

unfoldable pub normalize_checkout_request :
    (Text → Text) → CheckoutRequest → Result NormalizedRequest
normalize_checkout_request lower body = do
  lines ← normalize_lines body.lines
  throw_if (length lines == 0) invalid
  throw_if (not (length (as_set (map slug_of lines)) == length lines)) invalid
  customer_email ← normalize_email lower body.customer_email
  shipping_address ← normalize_shipping_address body.shipping_address
  ok (record {
    customer_email = customer_email;
    payment_method = or_else (trimmed body.payment_method) (codes "mock");
    shipping_address = shipping_address;
    lines = lines;
  })
