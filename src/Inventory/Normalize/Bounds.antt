-- ===== src/Inventory/Normalize/Bounds.antt =====
-- What the checks of a request guarantee (services/inventory-service/src/main.ts).
use kuajing.Base.{
  ℕ, ◌≤◌, ◌≡◌, true, ◌||◌, ◌==◌, Option, none, some, [], ◌∷◌, arith, length, ltb, inl, inr,
  Bool-cases, Option-cases, subst,
}
use kuajing.Base.Int.{pos, negsuc, JsNumber, integer, not_integer}
use kuajing.Base.Text.{Text, trimmed}
use kuajing.Base.Failure.{ok, bind_ok, ok-injective}
use kuajing.Inventory.Types.{ReservationRequest, ReservationInput}
use kuajing.Inventory.Normalize.{
  is_uuid, normalize_uuid, normalize_optional_uuid, normalize_quantity, normalize_idempotency_key,
  first_trimmed, normalize_request,
}

normalize_uuid-is_uuid :
    (value : Option Text) {t : Text} → normalize_uuid value ≡ ok t → is_uuid t ≡ true
unfolding normalize_uuid
normalize_uuid-is_uuid value {t} e = elim (Option-cases (trimmed value)) [
  | inl f ↦ ground arith
  | inr (u, f) ↦ elim (Bool-cases (is_uuid u)) [ inl g ↦ ground arith | inr g ↦ ground arith ]
]

-- Each id that is given is a UUID.
abbrev pub IsUuid : Option Text → Type 0
IsUuid none = Unit
IsUuid (some t) = is_uuid t ≡ true

normalize_optional_uuid-IsUuid :
    (value o : Option Text) → normalize_optional_uuid value ≡ ok o → IsUuid o
unfolding normalize_optional_uuid
normalize_optional_uuid-IsUuid value none e = tt
normalize_optional_uuid-IsUuid none (some t) e = cc
normalize_optional_uuid-IsUuid (some []) (some t) e = cc
normalize_optional_uuid-IsUuid (some (c ∷ s)) (some t) e =
    let (u, f, g) = bind_ok (normalize_uuid (some (c ∷ s))) (λ u. ok (some u)) e in
    normalize_uuid-is_uuid (some (c ∷ s)) {t = t} cc

normalize_quantity_bounds :
    (n : JsNumber) {q : ℕ} → normalize_quantity n ≡ ok q → (1 ≤ q) × (q ≤ 999)
unfolding normalize_quantity
normalize_quantity_bounds not_integer e = cc
normalize_quantity_bounds (integer (negsuc n)) e = cc
normalize_quantity_bounds (integer (pos n)) {q} e = elim (Bool-cases (n == 0 || ltb 999 n)) [
  | inl f ↦ ground arith
  | inr f ↦ ground arith
]

length-normalize_idempotency_key :
    (header body : Option Text) {t : Text}
    → normalize_idempotency_key header body ≡ ok t
    → length t ≤ 160
unfolding normalize_idempotency_key
length-normalize_idempotency_key header body {t} e =
    elim (Option-cases (first_trimmed header body)) [
      | inl f ↦ ground arith
      | inr (u, f) ↦ ground arith
    ]

-- What a request promises once it has passed its checks.
abbrev pub IsValid : ReservationInput → Type 0
IsValid input =
    (is_uuid input.sku_id ≡ true)
    × IsUuid input.warehouse_id
    × IsUuid input.order_id
    × ((1 ≤ input.qty) × (input.qty ≤ 999))
    × (length input.idempotency_key ≤ 160)

-- A request that passes its checks names a SKU by a UUID, a warehouse and an order by a UUID or not
-- at all, a quantity from 1 to 999, and a key of at most 160 characters.
pub normalize_request-IsValid :
    (body : ReservationRequest) (header : Option Text) {input : ReservationInput}
    → normalize_request body header ≡ ok input
    → IsValid input
unfolding normalize_request
normalize_request-IsValid body header {input} e =
    let (key, key_is, e1) = bind_ok (normalize_idempotency_key header body.idempotency_key) _ e in
    let (sku, sku_is, e2) = bind_ok (normalize_uuid body.sku_id) _ e1 in
    let (place, place_is, e3) = bind_ok (normalize_optional_uuid body.warehouse_id) _ e2 in
    let (order, order_is, e4) = bind_ok (normalize_optional_uuid body.order_id) _ e3 in
    let (qty, qty_is, e5) = bind_ok (normalize_quantity body.qty) _ e4 in
    subst_ok e5 (
      normalize_uuid-is_uuid body.sku_id sku_is,
      normalize_optional_uuid-IsUuid body.warehouse_id place place_is,
      normalize_optional_uuid-IsUuid body.order_id order order_is,
      normalize_quantity_bounds body.qty qty_is,
      length-normalize_idempotency_key header body.idempotency_key key_is,
    )
  where
    subst_ok : {made : ReservationInput} → ok made ≡ ok input → IsValid made → IsValid input
    subst_ok {made} f h = subst IsValid (ok-injective f) h
