-- ===== src/Inventory/Memory/Places.antt =====
-- Which entry of the map an item has (services/inventory-service/src/main.ts, `ensureItem`).
use kuajing.Base.{◌≡◌, refl, true, [], ◌∷◌, ◌++◌, arith, length, sym, ◌∙◌}
use kuajing.Base.Text.{Text, length-matches}
use kuajing.Inventory.Normalize.{uuid_pattern, is_uuid}
use kuajing.Inventory.Memory.{item_key}

append-injective :
    (xs ys zs ws : Text) → length xs ≡ length ys → xs ++ zs ≡ ys ++ ws → (xs ≡ ys) × (zs ≡ ws)
append-injective [] [] zs ws h e = (refl, e)
append-injective [] (y ∷ ys) zs ws h e = absurd (omega (arith, h))
append-injective (x ∷ xs) [] zs ws h e = absurd (omega (arith, h))
append-injective (x ∷ xs) (y ∷ ys) zs ws h e =
    let (same, rest) = append-injective xs ys zs ws (omega (arith, h)) cc in (cc, rest)

-- If the warehouses are UUIDs, as the checks of a request ensure, then two items have one entry in
-- the map only if they are of the same SKU in the same warehouse.
pub item_key-injective :
    (warehouse_id other_warehouse sku_id other_sku : Text)
    → is_uuid warehouse_id ≡ true
    → is_uuid other_warehouse ≡ true
    → item_key warehouse_id sku_id ≡ item_key other_warehouse other_sku
    → (warehouse_id ≡ other_warehouse) × (sku_id ≡ other_sku)
item_key-injective w w' s s' u u' e =
    let (same, rest) =
      append-injective w w' (b':' ∷ s) (b':' ∷ s')
        (length-matches uuid_pattern w u ∙ sym (length-matches uuid_pattern w' u')) e in
    (same, cc)
