-- ===== src/Inventory/Types.antt =====
-- The data of services/inventory-service/src/main.ts that both storages share.
use kuajing.Base.{ℕ, ◌≡◌, ◌⊎◌, refl, inl, inr, Bool, true, false, ◌&&◌, ◌==◌, Option, none, some}
use kuajing.Base.Int.{ℤ, JsNumber, ◌-ℤ◌}
use kuajing.Base.Text.{Text, text_eq}
use kuajing.Base.Failure.{http, Result, ok, err, idempotency_conflict}

pub data ReservationStatus : Type 0 where
  reserved confirmed cancelled : ReservationStatus

pub data AuditAction : Type 0 where
  manual_adjustment stocktake safety_stock_update manual_release : AuditAction

-- `ReservationRequest`, with `Number(body.qty)` for the quantity.
pub record ReservationRequest : Type 0 where
  pub sku_id : Option Text
  pub warehouse_id : Option Text
  pub order_id : Option Text
  pub qty : JsNumber
  pub idempotency_key : Option Text

-- What `normalizeRequest` returns.
pub record ReservationInput : Type 0 where
  pub sku_id : Text
  pub warehouse_id : Option Text
  pub order_id : Option Text
  pub qty : ℕ
  pub idempotency_key : Text

-- `AdminInventoryAdjustmentRequest`; `none` for `undefined` and `null`.
pub record AdjustmentRequest : Type 0 where
  pub available_delta : Option JsNumber
  pub stocktake_available_qty : Option JsNumber
  pub safety_qty : Option JsNumber
  pub reason : Option Text
  pub actor_id : Option Text

-- What `normalizeAdjustmentRequest` returns.
pub record Adjustment : Type 0 where
  pub available_delta : Option ℤ
  pub stocktake_available_qty : Option ℤ
  pub safety_qty : Option ℤ
  pub reason : Text
  pub actor_id : Text

pub record Quantities : Type 0 where
  pub available_qty : ℤ
  pub reserved_qty : ℤ
  pub safety_qty : ℤ
  pub inventory_version : ℕ

-- `ReservationResult`, less its storage mode.
pub record ReservationResult : Type 0 where
  pub reservation_id : Text
  pub status : ReservationStatus
  pub sku_id : Text
  pub warehouse_id : Text
  pub order_id : Option Text
  pub qty : ℕ
  pub stock : Quantities
  pub idempotency_key : Text

-- `AdminInventoryItem`, less its storage mode and the constant `lockedQty`.
pub record AdminItem : Type 0 where
  pub item_id : Text
  pub sku_id : Text
  pub warehouse_id : Text
  pub stock : Quantities
  pub sellable_qty : ℤ

-- `AdminInventoryAuditEvent`.
pub record AuditEvent : Type 0 where
  pub event_id : Text
  pub item_id : Text
  pub action : AuditAction
  pub actor_id : Text
  pub reason : Text
  pub old_value : Quantities
  pub new_value : Quantities
  pub correlation_id : Text
  pub created_at : Text

-- The environment variables that the service reads.
pub record Config : Type 0 where
  pub store_id : Text
  pub default_warehouse_id : Text
  pub default_sku_id : Text
  pub default_available_qty : ℤ
  pub default_safety_qty : ℤ

-- What one call draws from `randomUUID()` and the clock.
pub record Fresh : Type 0 where
  pub item_id : Text
  pub reservation_id : Text
  pub event_id : Text
  pub now : Text

unfoldable pub sellable : Quantities → ℤ
sellable q = q.available_qty -ℤ q.reserved_qty -ℤ q.safety_qty

pub record ReservationIdentity : Type 0 where
  pub sku_id : Text
  pub warehouse_id : Text
  pub qty : ℕ

abbrev pub same_identity : ReservationIdentity → ReservationIdentity → Bool
same_identity a b =
    text_eq a.sku_id b.sku_id && text_eq a.warehouse_id b.warehouse_id && a.qty == b.qty

-- `assertReservationReplay` of reservation-idempotency.ts.
unfoldable pub assert_reservation_replay :
    ReservationIdentity → ReservationIdentity → Result (Unit {0})
assert_reservation_replay existing incoming = elim (same_identity existing incoming) [
  | true ↦ ok tt
  | false ↦ err (http idempotency_conflict)
]

-- `actionForAdjustment`
unfoldable pub action_for_adjustment : Adjustment → AuditAction
action_for_adjustment input = elim input.stocktake_available_qty [
  | some _ ↦ stocktake
  | none ↦ elim input.available_delta [ some _ ↦ manual_adjustment | none ↦ safety_stock_update ]
]

pub ReservationStatus-cases :
    (s : ReservationStatus) → (s ≡ reserved) ⊎ (s ≡ confirmed) ⊎ (s ≡ cancelled)
ReservationStatus-cases reserved = inl refl
ReservationStatus-cases confirmed = inr (inl refl)
ReservationStatus-cases cancelled = inr (inr refl)
