-- ===== src/Inventory/Postgres/Rows.antt =====
-- Updates of the rows of `inventory_items` by their id
-- (services/inventory-service/src/main.ts, `InventoryRepository`).
use kuajing.Base.{
  ◌≡◌, refl, Bool, false, none, some, List, [], ◌∷◌, arith, inl, inr, find, map, All, Bool-cases,
}
use kuajing.Base.Int.{pos, ◌≤ℤ◌}
use kuajing.Base.Text.{Text, text_eq, text_eq_iff}
use kuajing.Inventory.Types.{Quantities}
use kuajing.Inventory.Postgres.{ItemRow, update_row, is_broken}

abbrev pub has_id : Text → ItemRow → Bool
has_id id i = text_eq i.id id

-- `id` is the primary key.
abbrev pub IsDistinct : List ItemRow → Type 0
IsDistinct [] = Unit
IsDistinct (x ∷ xs) = (find (has_id x.id) xs ≡ none) × IsDistinct xs

-- Neither quantity of a row is below zero.
abbrev pub IsStocked : ItemRow → Type 0
IsStocked i = (pos 0 ≤ℤ i.stock.available_qty) × (pos 0 ≤ℤ i.stock.reserved_qty)

module _ (id : Text) (change : Quantities → Quantities) where
  update_row-id : (x : ItemRow) → (update_row id change x).id ≡ x.id
  update_row-id x = ground arith

  find-update_other :
      (j : Text) (xs : List ItemRow)
      → find (has_id j) xs ≡ none
      → find (has_id j) (map (update_row id change) xs) ≡ none
  find-update_other j [] h = refl
  find-update_other j (x ∷ xs) h = ground (arith, find-update_other j xs)

  pub map-update_none :
      (xs : List ItemRow) → find (has_id id) xs ≡ none → map (update_row id change) xs ≡ xs
  map-update_none [] h = refl
  map-update_none (x ∷ xs) h = ground (arith, map-update_none xs)

  pub update-IsDistinct :
      (xs : List ItemRow) → IsDistinct xs → IsDistinct (map (update_row id change) xs)
  update-IsDistinct [] h = tt
  update-IsDistinct (x ∷ xs) h =
      (rw (update_row-id x) (find-update_other x.id xs h.0), update-IsDistinct xs h.1)

  -- If the row with the id is left stocked, all rows are.
  pub update-All-IsStocked :
      (xs : List ItemRow) {i : ItemRow}
      → IsDistinct xs
      → All IsStocked xs
      → find (has_id id) (map (update_row id change) xs) ≡ some i
      → is_broken i.stock ≡ false
      → All IsStocked (map (update_row id change) xs)
  update-All-IsStocked [] d s f w = tt
  update-All-IsStocked (x ∷ xs) {i} d s f w = elim (Bool-cases (text_eq x.id id)) [
    | inl e ↦ ground (arith, text_eq_iff x.id id, map-update_none xs)
    | inr e ↦ ground (arith, update-All-IsStocked xs {i = i} d.1 s.1)
  ]
