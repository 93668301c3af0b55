-- ===== src/Inventory/Postgres/Stocked.antt =====
-- No transaction of `InventoryRepository` leaves a row with less than zero available or reserved
-- (services/inventory-service/src/main.ts).
use kuajing.Base.{inl, inr, find, map, All, Bool-cases, Option-cases}
use kuajing.Base.Int.{ℤ, pos, ◌-ℤ◌}
use kuajing.Base.Text.{Text}
use kuajing.Base.Failure.{Result, ok, err, ◌>>=◌, committed}
use kuajing.Inventory.Types.{ReservationInput, ReservationStatus, Config, Fresh}
use kuajing.Inventory.Postgres.{
  ItemRow, ReservationRow, Database, Handler, moved, update_row, is_broken, update_item_quantities,
  replay_row, insert_row, find_item_for_request, find_item_for_reservation,
  update_reservation_status, settle_row, checked_replay,
}
use kuajing.Inventory.Postgres.Rows.{
  IsDistinct, IsStocked, has_id, update-IsDistinct, update-All-IsStocked,
}

pub record IsSound (db : Database) : Type 0 where
  pub distinct : IsDistinct db.items
  pub stocked : All IsStocked db.items

-- What a handler that commits has kept.
abbrev pub Good : {A : Type 0} → Result (A × Database) → Type 0
Good (ok (a, db)) = IsSound db
Good (err e) = Unit

abbrev pub Keeps : {A : Type 0} → Handler A → Type 0
Keeps h = (db : Database) → IsSound db → Good (h db)

pub Good-bind :
    {A B : Type 0} (m : Result A) (f : A → Result (B × Database))
    → ((a : A) → Good (f a))
    → Good (m >>= f)
Good-bind (ok a) f h = h a
Good-bind (err e) f h = tt

pub Good-then :
    {A B : Type 0} (m : Result (A × Database)) (f : A × Database → Result (B × Database))
    → Good m
    → ((a : A) (db : Database) → IsSound db → Good (f (a, db)))
    → Good (m >>= f)
Good-then (ok (a, db)) f g h = h a db g
Good-then (err e) f g h = tt

pub committed-IsSound :
    {A : Type 0} (m : Result (A × Database)) (db : Database)
    → Good m
    → IsSound db
    → IsSound (committed m db).1
committed-IsSound (ok (a, db')) db g s = g
committed-IsSound (err e) db g s = s

pub update_item_quantities-Keeps : (id : Text) (r a : ℤ) → Keeps (update_item_quantities id r a)
unfolding update_item_quantities
update_item_quantities-Keeps id r a db s =
    elim (Option-cases (find (has_id id) (map (update_row id (moved r a)) db.items))) [
      | inl e ↦ rw (e, update_item_quantities) tt
      | inr (i, e) ↦ elim (Bool-cases (is_broken i.stock)) [
        | inl b ↦ rw (e, update_item_quantities) (rw b tt)
        | inr b ↦
            rw (e, update_item_quantities)
              (rw b (record {
                distinct = update-IsDistinct id (moved r a) db.items s.distinct;
                stocked = update-All-IsStocked id (moved r a) db.items s.distinct s.stocked e b;
              }))
      ]
    ]

-- Writes to other tables leave the rows alone.
pub update_reservation_status-Keeps :
    (cfg : Config) (r : ReservationRow) (status : ReservationStatus)
    → Keeps (update_reservation_status cfg r status)
unfolding update_reservation_status
update_reservation_status-Keeps cfg r status db s = record {
  distinct = s.distinct;
  stocked = s.stocked;
}

pub settle_row-Keeps :
    (cfg : Config) (r : ReservationRow) (item : ItemRow) (a : ℤ) (status : ReservationStatus)
    → Keeps (settle_row cfg r item a status)
unfolding settle_row
settle_row-Keeps cfg r item a status db s =
    Good-then _ _ (update_item_quantities-Keeps item.id (pos 0 -ℤ pos r.qty) a db s) λ i db' s'.
      Good-then _ _ (update_reservation_status-Keeps cfg r status db' s') λ row db'' s''. s''

pub insert_row-Keeps :
    (cfg : Config) (fresh : Fresh) (input : ReservationInput) → Keeps (insert_row cfg fresh input)
unfolding insert_row
insert_row-Keeps cfg fresh input db s = Good-bind (find_item_for_request cfg input db) _ λ item.
    Good-bind _ _ λ u.
      Good-then _ _ (update_item_quantities-Keeps item.id (pos input.qty) (pos 0) db s)
        λ i db' s'. record { distinct = s'.distinct; stocked = s'.stocked }

pub replay_row-Keeps :
    (cfg : Config) (input : ReservationInput) (r : ReservationRow) → Keeps (replay_row cfg input r)
unfolding replay_row
replay_row-Keeps cfg input r db s =
    Good-bind (checked_replay cfg input r) _
      λ u. Good-bind (find_item_for_reservation cfg r db) _ λ item. s
