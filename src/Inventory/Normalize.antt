-- ===== src/Inventory/Normalize.antt =====
-- The request checks of services/inventory-service/src/main.ts.
pub mod Bounds
mod Tests
use kuajing.Base.{
  ℕ, ◌+◌, Bool, true, false, ◌&&◌, ◌||◌, Option, none, some, List, [], ◌∷◌, ◌++◌, leb, ltb, ◌==◌,
  length, if◌then◌else◌,
}
use kuajing.Base.Int.{ℤ, pos, negsuc, JsNumber, integer, not_integer}
use kuajing.Base.Text.{Text, codes, trimmed, matches}
use kuajing.Base.Failure.{Failure, http, Result, ok, err, ◌>>=◌, ◌>>◌, throw_if, validation_failed}
use kuajing.Inventory.Types.{ReservationRequest, ReservationInput, AdjustmentRequest, Adjustment}

abbrev pub invalid : Failure
invalid = http validation_failed

abbrev pub is_hex : ℕ → Bool
is_hex c = leb b'0' c && leb c b'9' || leb b'a' c && leb c b'f' || leb b'A' c && leb c b'F'

abbrev pub is_dash : ℕ → Bool
is_dash c = c == b'-'

abbrev pub is_version : ℕ → Bool
is_version c = leb b'1' c && leb c b'5'

abbrev pub is_variant : ℕ → Bool
is_variant c = c == b'8' || c == b'9' || c == b'a' || c == b'b' || c == b'A' || c == b'B'

abbrev pub hex4 : List (ℕ → Bool)
hex4 = is_hex ∷ is_hex ∷ is_hex ∷ is_hex ∷ []

-- `uuidPattern`, case-insensitive.
abbrev pub uuid_pattern : List (ℕ → Bool)
uuid_pattern =
    hex4
    ++ (hex4
        ++ (is_dash ∷ hex4
            ++ (is_dash ∷ is_version ∷ is_hex ∷ is_hex ∷ is_hex ∷ is_dash ∷ is_variant ∷ is_hex
                  ∷ is_hex ∷ is_hex ∷ is_dash ∷ hex4
                ++ (hex4 ++ hex4))))

abbrev pub is_uuid : Text → Bool
is_uuid t = matches uuid_pattern t

unfoldable pub normalize_uuid : Option Text → Result Text
normalize_uuid value = elim (trimmed value) [
  | none ↦ err invalid
  | some t ↦ if is_uuid t then ok t else err invalid
]

-- `value ? normalizeUuid(value) : undefined`
unfoldable pub normalize_optional_uuid : Option Text → Result (Option Text)
unfolding normalize_uuid
normalize_optional_uuid none = ok none
normalize_optional_uuid (some []) = ok none
normalize_optional_uuid (some (c ∷ t)) = do u ← normalize_uuid (some (c ∷ t)); ok (some u)

unfoldable pub normalize_quantity : JsNumber → Result ℕ
normalize_quantity not_integer = err invalid
normalize_quantity (integer (negsuc n)) = err invalid
normalize_quantity (integer (pos n)) = if n == 0 || ltb 999 n then err invalid else ok n

unfoldable pub normalize_non_negative_integer : Option JsNumber → Result (Option ℤ)
normalize_non_negative_integer none = ok none
normalize_non_negative_integer (some not_integer) = err invalid
normalize_non_negative_integer (some (integer (negsuc n))) = err invalid
normalize_non_negative_integer (some (integer (pos n))) =
    if ltb 999999 n then err invalid else ok (some (pos n))

unfoldable pub normalize_signed_integer : Option JsNumber → Result (Option ℤ)
normalize_signed_integer none = ok none
normalize_signed_integer (some not_integer) = err invalid
normalize_signed_integer (some (integer (negsuc n))) =
    if ltb 999999 (n + 1) then err invalid else ok (some (negsuc n))
normalize_signed_integer (some (integer (pos n))) =
    if ltb 999999 n then err invalid else ok (some (pos n))

unfoldable pub normalize_reason : Option Text → Result Text
normalize_reason value = elim (trimmed value) [
  | none ↦ err invalid
  | some t ↦ if ltb 300 (length t) then err invalid else ok t
]

unfoldable pub normalize_actor_id : Option Text → Result Text
normalize_actor_id value = elim (trimmed value) [
  | none ↦ ok (codes "local-admin")
  | some t ↦ if ltb 120 (length t) then err invalid else ok t
]

abbrev pub is_none {ℓ} : {A : Type ℓ} → Option A → Bool
is_none none = true
is_none (some _) = false

abbrev pub is_some {ℓ} : {A : Type ℓ} → Option A → Bool
is_some none = false
is_some (some _) = true

unfoldable pub normalize_adjustment_request : AdjustmentRequest → Result Adjustment
unfolding normalize_signed_integer normalize_non_negative_integer normalize_reason
    normalize_actor_id
normalize_adjustment_request body = do
  delta ← normalize_signed_integer body.available_delta
  counted ← normalize_non_negative_integer body.stocktake_available_qty
  safety ← normalize_non_negative_integer body.safety_qty
  throw_if (is_some delta && is_some counted) invalid
  throw_if (is_none delta && is_none counted && is_none safety) invalid
  reason ← normalize_reason body.reason
  actor_id ← normalize_actor_id body.actor_id
  ok (record {
    available_delta = delta;
    stocktake_available_qty = counted;
    safety_qty = safety;
    reason = reason;
    actor_id = actor_id;
  })

-- `a?.trim() || b?.trim()`
abbrev pub first_trimmed : Option Text → Option Text → Option Text
first_trimmed a b = elim (trimmed a) [ some t ↦ some t | none ↦ trimmed b ]

unfoldable pub normalize_idempotency_key : Option Text → Option Text → Result Text
normalize_idempotency_key header body = elim (first_trimmed header body) [
  | none ↦ err invalid
  | some t ↦ if ltb 160 (length t) then err invalid else ok t
]

unfoldable pub normalize_request : ReservationRequest → Option Text → Result ReservationInput
unfolding normalize_uuid normalize_optional_uuid normalize_quantity normalize_idempotency_key
normalize_request body header = do
  idempotency_key ← normalize_idempotency_key header body.idempotency_key
  sku_id ← normalize_uuid body.sku_id
  warehouse_id ← normalize_optional_uuid body.warehouse_id
  order_id ← normalize_optional_uuid body.order_id
  qty ← normalize_quantity body.qty
  ok (record {
    sku_id = sku_id;
    warehouse_id = warehouse_id;
    order_id = order_id;
    qty = qty;
    idempotency_key = idempotency_key;
  })
