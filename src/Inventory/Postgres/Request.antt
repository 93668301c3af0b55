-- ===== src/Inventory/Postgres/Request.antt =====
-- How `tryReserve` of `InventoryRepository` chooses a row, and how it answers a repeated request
-- (services/inventory-service/src/main.ts).
use kuajing.Base.{
  ◌≡◌, ◌≢◌, refl, true, false, none, some, List, [], ◌∷◌, arith, inl, inr, ap, ◌∙◌, All, ◌⊎◌,
  Bool-cases, Option-cases,
}
use kuajing.Base.Int.{ℤ, pos, ltb_ℤ, ◌≤ℤ◌, ◌+ℤ◌, int_laws}
use kuajing.Base.Text.{Text, text_eq_iff, text_eq_refl}
use kuajing.Base.Failure.{
  http, Result, ok, err, ◌>>=◌, committed, not_found, inventory_shortage, idempotency_conflict,
}
use kuajing.Inventory.Types.{
  ReservationInput, ReservationResult, Config, Fresh, sellable, assert_reservation_replay,
}
use kuajing.Inventory.Postgres.{
  ItemRow, ReservationRow, Database, try_reserve, replay_row, insert_row, new_row, find_reservation,
  find_item_for_request, first_by, better, filter_items, requested, update_item_quantities,
  result_from_rows,
}

abbrev SellsAtMost : ℤ → List ItemRow → Type 0
SellsAtMost z xs = All (λ (x : ItemRow). sellable x.stock ≤ℤ z) xs

SellsAtMost-mono : (a b : ℤ) (xs : List ItemRow) → a ≤ℤ b → SellsAtMost a xs → SellsAtMost b xs
SellsAtMost-mono a b [] h s = tt
SellsAtMost-mono a b (x ∷ xs) h s = (omega arith, SellsAtMost-mono a b xs h s.1)

first_by-none : (z : ℤ) (xs : List ItemRow) → first_by better xs ≡ none → SellsAtMost z xs
unfolding first_by
first_by-none z [] e = tt
first_by-none z (x ∷ xs) e = absurd (ground arith)

-- The chosen row has the most for sale.
first_by-better :
    (xs : List ItemRow) {y : ItemRow}
    → first_by better xs ≡ some y
    → SellsAtMost (sellable y.stock) xs
unfolding first_by
first_by-better [] e = tt
first_by-better (x ∷ xs) {y} e = elim (Option-cases (first_by better xs)) [
  | inl f ↦ (ground arith, first_by-none (sellable y.stock) xs f)
  | inr (y', f) ↦ elim (Bool-cases (better y' x)) [
    | inl b ↦ (
      ground arith,
      SellsAtMost-mono (sellable y'.stock) (sellable y.stock) xs (ground arith)
          (first_by-better xs f),
    )
    | inr b ↦ (
      ground arith,
      SellsAtMost-mono (sellable y'.stock) (sellable y.stock) xs (ground arith)
          (first_by-better xs f),
    )
  ]
]

-- The check of the quantities afterwards is no shortage.
update_item_quantities-not_short :
    (id : Text) (r a : ℤ) (db : Database)
    → update_item_quantities id r a db ≢ err (http inventory_shortage)
unfolding update_item_quantities
update_item_quantities-not_short id r a db e = ground arith

short_of :
    (z : ℤ) (input : ReservationInput) (xs : List ItemRow)
    → z +ℤ pos 1 ≤ℤ pos input.qty
    → SellsAtMost z xs
    → All (λ (i : ItemRow). sellable i.stock +ℤ pos 1 ≤ℤ pos input.qty) xs
short_of z input [] h s = tt
short_of z input (x ∷ xs) h s = (omega int_laws, short_of z input xs h s.1)

module _ (cfg : Config) (fresh : Fresh) (input : ReservationInput) (db : Database) where
  try_reserve-new :
      find_reservation cfg input.idempotency_key db ≡ none
      → try_reserve cfg fresh input db ≡ committed (insert_row cfg fresh input db) db
  unfolding try_reserve
  try_reserve-new e = rw (e, try_reserve)

  try_reserve-used :
      {r : ReservationRow}
      → find_reservation cfg input.idempotency_key db ≡ some r
      → try_reserve cfg fresh input db ≡ committed (replay_row cfg input r db) db
  unfolding try_reserve
  try_reserve-used e = rw (e, try_reserve)

  insert_row-missing :
      first_by better (filter_items (requested cfg input) db.items) ≡ none
      → insert_row cfg fresh input db ≡ err (http not_found)
  unfolding insert_row find_item_for_request
  insert_row-missing e = ground arith

  -- The end of the handler, once the row is updated.
  abbrev after_update : ItemRow → ItemRow × Database → Result (ReservationResult × Database)
  after_update item (updated, db') =
      let row = new_row cfg fresh input item.warehouse_id in
      ok (result_from_rows row updated, record db' { reservations = row ∷ db'.reservations })

  insert_row-enough :
      (item : ItemRow)
      → find_item_for_request cfg input db ≡ ok item
      → ltb_ℤ (sellable item.stock) (pos input.qty) ≡ false
      → insert_row cfg fresh input db
        ≡ (update_item_quantities item.id (pos input.qty) (pos 0) db >>= after_update item)
  unfolding insert_row
  insert_row-enough item chosen enough = rw (chosen, insert_row) (rw enough)

  insert_row-short :
      (item : ItemRow)
      → find_item_for_request cfg input db ≡ ok item
      → ltb_ℤ (sellable item.stock) (pos input.qty) ≡ true
      → insert_row cfg fresh input db ≡ err (http inventory_shortage)
  unfolding insert_row
  insert_row-short item chosen short = rw (chosen, insert_row) (rw short)

  not_short_after :
      (item : ItemRow) (m : Result (ItemRow × Database))
      → m ≢ err (http inventory_shortage)
      → (committed (m >>= after_update item) db).0 ≢ err (http inventory_shortage)
  not_short_after item (ok (u, db')) h e = cc
  not_short_after item (err e) h f = h (ground arith)

  chosen_row :
      {item : ItemRow}
      → first_by better (filter_items (requested cfg input) db.items) ≡ some item
      → find_item_for_request cfg input db ≡ ok item
  unfolding find_item_for_request
  chosen_row e = rw (e, find_item_for_request)

  -- A new reservation that is refused for want of stock could not be served by any row of the SKU
  -- in the warehouse asked for, or in any warehouse if none was.
  pub try_reserve_shortage :
      find_reservation cfg input.idempotency_key db ≡ none
      → (try_reserve cfg fresh input db).0 ≡ err (http inventory_shortage)
      → All
          (λ (i : ItemRow). sellable i.stock +ℤ pos 1 ≤ℤ pos input.qty)
          (filter_items (requested cfg input) db.items)
  try_reserve_shortage fresh_key refused = go (Option-cases (first_by better rows))
    where
      rows : List ItemRow
      rows = filter_items (requested cfg input) db.items

      refused' : (committed (insert_row cfg fresh input db) db).0 ≡ err (http inventory_shortage)
      refused' = rw (try_reserve-new fresh_key) at refused

      go :
          (first_by better rows ≡ none) ⊎ ((i : ItemRow) × (first_by better rows ≡ some i))
          → All (λ (i : ItemRow). sellable i.stock +ℤ pos 1 ≤ℤ pos input.qty) rows
      go (inl e) = cc (insert_row-missing e, refused')
      go (inr (i, e)) = elim (Bool-cases (ltb_ℤ (sellable i.stock) (pos input.qty))) [
        | inl b ↦
            short_of (sellable i.stock) input rows (grind (int_laws, b)) (first_by-better rows e)
        | inr b ↦ absurd (
            not_short_after i (update_item_quantities i.id (pos input.qty) (pos 0) db)
              (update_item_quantities-not_short i.id (pos input.qty) (pos 0) db)
              (rw (insert_row-enough i (chosen_row e) b) at refused'))
      ]

  -- The row that a new reservation adds is the one found under its key.
  after_update-found :
      (item : ItemRow) (m : Result (ItemRow × Database)) {res : ReservationResult} {db' : Database}
      → (m >>= after_update item) ≡ ok (res, db')
      → find_reservation cfg input.idempotency_key db'
        ≡ some (new_row cfg fresh input item.warehouse_id)
  unfolding find_reservation
  after_update-found item (ok (u, db'')) {db'} e =
      ground (arith, text_eq_refl cfg.store_id, text_eq_refl input.idempotency_key)
  after_update-found item (err f) e = cc

  insert_row-found :
      {item : ItemRow} {res : ReservationResult} {db' : Database}
      → find_item_for_request cfg input db ≡ ok item
      → insert_row cfg fresh input db ≡ ok (res, db')
      → find_reservation cfg input.idempotency_key db'
        ≡ some (new_row cfg fresh input item.warehouse_id)
  insert_row-found {item} chosen done =
      elim (Bool-cases (ltb_ℤ (sellable item.stock) (pos input.qty))) [
        | inl b ↦ cc (insert_row-short item chosen b)
        | inr b ↦
            after_update-found item (update_item_quantities item.id (pos input.qty) (pos 0) db)
              (rw (insert_row-enough item chosen b) at done)
      ]

module _ (cfg : Config) (fresh later : Fresh) (input : ReservationInput) (db : Database) where
  replay_elsewhere :
      (r : ReservationRow) (db' : Database)
      → input.warehouse_id ≡ none
      → r.warehouse_id ≢ cfg.default_warehouse_id
      → replay_row cfg input r db' ≡ err (http idempotency_conflict)
  unfolding replay_row assert_reservation_replay
  replay_elsewhere r db' nowhere away =
      ground (arith, text_eq_iff r.warehouse_id cfg.default_warehouse_id)

  elsewhere_after :
      {item : ItemRow} (m : Result (ReservationResult × Database)) {res : ReservationResult}
      → insert_row cfg fresh input db ≡ m
      → input.warehouse_id ≡ none
      → find_reservation cfg input.idempotency_key db ≡ none
      → find_item_for_request cfg input db ≡ ok item
      → item.warehouse_id ≢ cfg.default_warehouse_id
      → (try_reserve cfg fresh input db).0 ≡ ok res
      → let db' = (try_reserve cfg fresh input db).1 in
        try_reserve cfg later input db' ≡ (err (http idempotency_conflict), db')
  elsewhere_after {item} (ok (r, db')) e nowhere fresh_key chosen away accepted =
      rw (try_reserve-new cfg fresh input db fresh_key ∙ ap (λ m. committed m db) e) (
        try_reserve-used cfg later input db' (insert_row-found cfg fresh input db chosen e)
        ∙ ap (λ m. committed m db')
            (replay_elsewhere (new_row cfg fresh input item.warehouse_id) db' nowhere away))
  elsewhere_after (err f) e nowhere fresh_key chosen away accepted = cc (
      ap (λ (p : Result ReservationResult × Database). p.0)
        (try_reserve-new cfg fresh input db fresh_key ∙ ap (λ m. committed m db) e))

  -- A request that names no warehouse, and whose new reservation was placed in another warehouse
  -- than the default one, is refused as an idempotency conflict when it comes again.
  pub try_reserve_elsewhere :
      {item : ItemRow} {res : ReservationResult}
      → input.warehouse_id ≡ none
      → find_reservation cfg input.idempotency_key db ≡ none
      → find_item_for_request cfg input db ≡ ok item
      → item.warehouse_id ≢ cfg.default_warehouse_id
      → (try_reserve cfg fresh input db).0 ≡ ok res
      → let db' = (try_reserve cfg fresh input db).1 in
        try_reserve cfg later input db' ≡ (err (http idempotency_conflict), db')
  try_reserve_elsewhere {item} nowhere fresh_key chosen away accepted =
      elsewhere_after (insert_row cfg fresh input db) refl nowhere fresh_key chosen away accepted
