-- ===== src/Inventory/Postgres/Run.antt =====
-- Any sequence of transactions of `InventoryRepository`
-- (services/inventory-service/src/main.ts).
use kuajing.Base.{
  ◌≡◌, refl, Bool, none, some, List, [], ◌∷◌, arith, inl, inr, find, map, All, Bool-cases,
  Option-cases,
}
use kuajing.Base.Int.{pos, ltb_ℤ, ◌≤ℤ◌}
use kuajing.Base.Text.{Text}
use kuajing.Inventory.Types.{
  ReservationInput, Adjustment, Quantities, confirmed, cancelled, Config, Fresh,
  ReservationStatus-cases,
}
use kuajing.Inventory.Postgres.{
  ItemRow, ReservationRow, Database, try_reserve, replay_row, insert_row, find_item_for_reservation,
  confirm, confirm_row, cancel, cancel_row, find_reservation, require_reservation,
}
use kuajing.Inventory.Postgres.Admin.{
  release_row, release_reservation, by_id, adjusted, next_available, item_by_id, adjust_in_store,
  adjust_row, adjust_item, insert_audit_event,
}
use kuajing.Inventory.Postgres.Rows.{IsDistinct, IsStocked, has_id}
use kuajing.Inventory.Postgres.Stocked.{
  IsSound, Keeps, Good-bind, Good-then, committed-IsSound, settle_row-Keeps, insert_row-Keeps,
  replay_row-Keeps,
}

try_reserve-IsSound :
    (cfg : Config) (fresh : Fresh) (input : ReservationInput) (db : Database)
    → IsSound db
    → IsSound (try_reserve cfg fresh input db).1
unfolding try_reserve
try_reserve-IsSound cfg fresh input db s =
    elim (Option-cases (find_reservation cfg input.idempotency_key db)) [
      | inl e ↦
          rw (e, try_reserve)
            (committed-IsSound (insert_row cfg fresh input db) db
              (insert_row-Keeps cfg fresh input db s) s)
      | inr (r, e) ↦
          rw (e, try_reserve)
            (committed-IsSound (replay_row cfg input r db) db (replay_row-Keeps cfg input r db s) s)
    ]

confirm_row-Keeps :
    (cfg : Config) (r : ReservationRow) (item : ItemRow) → Keeps (confirm_row cfg r item)
unfolding confirm_row
confirm_row-Keeps cfg r item db s = elim (ReservationStatus-cases r.status) [
  | inl e ↦ rw (e, confirm_row) (settle_row-Keeps cfg r item _ confirmed db s)
  | inr (inl e) ↦ rw (e, confirm_row) s
  | inr (inr e) ↦ rw (e, confirm_row) tt
]

cancel_row-Keeps :
    (cfg : Config) (r : ReservationRow) (item : ItemRow) → Keeps (cancel_row cfg r item)
unfolding cancel_row
cancel_row-Keeps cfg r item db s = elim (ReservationStatus-cases r.status) [
  | inl e ↦ rw (e, cancel_row) (settle_row-Keeps cfg r item (pos 0) cancelled db s)
  | inr (inl e) ↦ rw (e, cancel_row) tt
  | inr (inr e) ↦ rw (e, cancel_row) s
]

module _ (cfg : Config) (key : Text) (db : Database) (s : IsSound db) where
  confirm-IsSound : IsSound (confirm cfg key db).1
  unfolding confirm
  confirm-IsSound =
      committed-IsSound _ db
        (Good-bind (require_reservation cfg key db) _ λ r.
          Good-bind (find_item_for_reservation cfg r db) _
            λ item. confirm_row-Keeps cfg r item db s)
        s

  cancel-IsSound : IsSound (cancel cfg key db).1
  unfolding cancel
  cancel-IsSound =
      committed-IsSound _ db
        (Good-bind (require_reservation cfg key db) _ λ r.
          Good-bind (find_item_for_reservation cfg r db) _ λ item. cancel_row-Keeps cfg r item db s)
        s

release_row-Keeps :
    (cfg : Config) (fresh : Fresh) (correlation_id actor_id reason : Text) (r : ReservationRow)
    (item : ItemRow)
    → Keeps (release_row cfg fresh correlation_id actor_id reason r item)
unfolding release_row insert_audit_event
release_row-Keeps cfg fresh correlation_id actor_id reason r item db s =
    elim (ReservationStatus-cases r.status) [
      | inl e ↦
          rw (e, release_row)
            (Good-then _ _ (settle_row-Keeps cfg r item (pos 0) cancelled db s)
              λ res db' s'. record { distinct = s'.distinct; stocked = s'.stocked })
      | inr (inl e) ↦ rw (e, release_row) tt
      | inr (inr e) ↦ rw (e, release_row) s
    ]

release_reservation-IsSound :
    (cfg : Config) (fresh : Fresh) (correlation_id reservation_id actor_id reason : Text)
    (db : Database)
    → IsSound db
    → IsSound (release_reservation cfg fresh correlation_id reservation_id actor_id reason db).1
unfolding release_reservation
release_reservation-IsSound cfg fresh correlation_id reservation_id actor_id reason db s =
    elim (Option-cases (find (by_id cfg reservation_id) db.reservations)) [
      | inl e ↦ rw (e, release_reservation) s
      | inr (r, e) ↦
          rw (e, release_reservation)
            (committed-IsSound _ db
              (Good-bind (find_item_for_reservation cfg r db) _
                λ item. release_row-Keeps cfg fresh correlation_id actor_id reason r item db s)
              s)
    ]

module _ (cfg : Config) (id : Text) (stock : Quantities) where
  find-adjust_other :
      (j : Text) (xs : List ItemRow)
      → find (has_id j) xs ≡ none
      → find (has_id j) (map (adjust_in_store cfg id stock) xs) ≡ none
  find-adjust_other j [] h = refl
  find-adjust_other j (x ∷ xs) h = ground (arith, find-adjust_other j xs)

  adjust-IsDistinct :
      (xs : List ItemRow) → IsDistinct xs → IsDistinct (map (adjust_in_store cfg id stock) xs)
  adjust-IsDistinct [] h = tt
  adjust-IsDistinct (x ∷ xs) h =
      (rw (adjust-id x) (find-adjust_other x.id xs h.0), adjust-IsDistinct xs h.1)
    where
      adjust-id : (y : ItemRow) → (adjust_in_store cfg id stock y).id ≡ y.id
      adjust-id y = ground arith

  adjust-All-IsStocked :
      (xs : List ItemRow)
      → (pos 0 ≤ℤ stock.available_qty) × (pos 0 ≤ℤ stock.reserved_qty)
      → All IsStocked xs
      → All IsStocked (map (adjust_in_store cfg id stock) xs)
  adjust-All-IsStocked [] w s = tt
  adjust-All-IsStocked (x ∷ xs) w s = (ground arith, adjust-All-IsStocked xs w s.1)

All-find :
    (p : ItemRow → Bool) (xs : List ItemRow) {i : ItemRow}
    → All IsStocked xs
    → find p xs ≡ some i
    → IsStocked i
All-find p [] s e = cc
All-find p (x ∷ xs) {i} s e = elim (Bool-cases (p x)) [
  | inl t ↦ ground arith
  | inr t ↦ ground (arith, All-find p xs {i = i} s.1)
]

adjust_row-Keeps :
    (cfg : Config) (fresh : Fresh) (correlation_id : Text) (input : Adjustment) (item : ItemRow)
    → IsStocked item
    → Keeps (adjust_row cfg fresh correlation_id input item)
unfolding adjust_row insert_audit_event
adjust_row-Keeps cfg fresh correlation_id input item w db s =
    elim (Bool-cases (ltb_ℤ (next_available input item.stock) (pos 0))) [
      | inl e ↦ rw (e, adjust_row) tt
      | inr e ↦
          rw (e, adjust_row)
            (record {
              distinct =
                  adjust-IsDistinct cfg item.id (adjusted input item.stock) db.items s.distinct;
              stocked =
                  adjust-All-IsStocked cfg item.id (adjusted input item.stock) db.items
                    (ground arith, w.1) s.stocked;
            })
    ]

adjust_item-IsSound :
    (cfg : Config) (fresh : Fresh) (correlation_id item_id : Text) (input : Adjustment)
    (db : Database)
    → IsSound db
    → IsSound (adjust_item cfg fresh correlation_id item_id input db).1
unfolding adjust_item
adjust_item-IsSound cfg fresh correlation_id item_id input db s =
    elim (Option-cases (find (item_by_id cfg item_id) db.items)) [
      | inl e ↦ rw (e, adjust_item) s
      | inr (i, e) ↦
          rw (e, adjust_item)
            (committed-IsSound _ db
              (adjust_row-Keeps cfg fresh correlation_id input i
                (All-find (item_by_id cfg item_id) db.items {i = i} s.stocked e) db s)
              s)
    ]

-- A transaction of the repository, with what it draws from `randomUUID()` and the clock.
pub data Call : Type 0 where
  reserving : Fresh → ReservationInput → Call
  confirming cancelling : Text → Call
  releasing : Fresh → Text → Text → Text → Text → Call
  adjusting : Fresh → Text → Text → Adjustment → Call

pub perform : Config → Call → Database → Database
perform cfg (reserving fresh input) db = (try_reserve cfg fresh input db).1
perform cfg (confirming key) db = (confirm cfg key db).1
perform cfg (cancelling key) db = (cancel cfg key db).1
perform cfg (releasing fresh c i a r) db = (release_reservation cfg fresh c i a r db).1
perform cfg (adjusting fresh c i input) db = (adjust_item cfg fresh c i input db).1

pub perform_all : Config → List Call → Database → Database
perform_all cfg [] db = db
perform_all cfg (c ∷ cs) db = perform_all cfg cs (perform cfg c db)

perform-IsSound :
    (cfg : Config) (c : Call) (db : Database) → IsSound db → IsSound (perform cfg c db)
unfolding perform
perform-IsSound cfg (reserving fresh input) db h = try_reserve-IsSound cfg fresh input db h
perform-IsSound cfg (confirming key) db h = confirm-IsSound cfg key db h
perform-IsSound cfg (cancelling key) db h = cancel-IsSound cfg key db h
perform-IsSound cfg (releasing fresh c i a r) db h =
    release_reservation-IsSound cfg fresh c i a r db h
perform-IsSound cfg (adjusting fresh c i input) db h = adjust_item-IsSound cfg fresh c i input db h

-- From a table whose ids are distinct and whose rows have neither what is available nor what is
-- reserved below zero, any transactions, in any order and whatever they return, lead to such a table
-- again.
pub perform_all-IsSound :
    (cfg : Config) (cs : List Call) (db : Database) → IsSound db → IsSound (perform_all cfg cs db)
unfolding perform_all
perform_all-IsSound cfg [] db h = h
perform_all-IsSound cfg (c ∷ cs) db h =
    perform_all-IsSound cfg cs (perform cfg c db) (perform-IsSound cfg c db h)
