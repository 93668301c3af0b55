-- ===== src/Inventory/Memory/Ledger.antt =====
-- The reserved quantity of an item against the reservations that are open on it
-- (services/inventory-service/src/main.ts, `InventoryMemoryStore`).
use kuajing.Base.{
  ℕ, ◌+◌, ◌≡◌, false, Option, none, some, [], ◌∷◌, arith, subst, if◌then◌else◌, inl, inr,
  Bool-cases,
}
use kuajing.Base.Int.{ℤ, pos, ◌+ℤ◌, int_laws}
use kuajing.Base.Text.{Text, text_eq, text_eq_iff}
use kuajing.Base.Dict.{Dict, get, set, get-set, get-set_self}
use kuajing.Inventory.Types.{reserved, confirmed, cancelled, Quantities, Config, Fresh}
use kuajing.Inventory.Memory.{Item, Reservation, Store, item_key, ensure_item, write_item, new_item}

-- What an open reservation holds of the item at a key.
abbrev pub counted : Text → Reservation → ℕ
counted k r =
    if text_eq (item_key r.warehouse_id r.sku_id) k
    then elim r.status [ reserved ↦ r.qty | confirmed ↦ 0 | cancelled ↦ 0 ]
    else 0

abbrev pub counted_at : Text → Option Reservation → ℕ
counted_at k none = 0
counted_at k (some r) = counted k r

-- The units that the open reservations hold of the item at a key.
unfoldable pub held : Text → Dict Reservation → ℕ
held k [] = 0
held k ((j, r) ∷ m) = counted k r + held k m

abbrev pub reserved_of : Option Item → ℤ
reserved_of none = pos 0
reserved_of (some i) = i.stock.reserved_qty

-- Every item has reserved exactly what the open reservations on it hold.
abbrev pub IsBalanced : Store → Type 0
IsBalanced st = (k : Text) → reserved_of (get k st.items) ≡ pos (held k st.reservations)

pub held-set :
    (k j : Text) (r : Reservation) (m : Dict Reservation)
    → held k (set j r m) + counted_at k (get j m) ≡ held k m + counted k r
unfolding held get set
held-set k j r [] = omega arith
held-set k j r ((i, r') ∷ m) = elim (Bool-cases (text_eq i j)) [
  | inl e ↦ rw e (omega arith)
  | inr e ↦ rw e (omega (arith, held-set k j r m))
]

module _ (cfg : Config) (fresh : Fresh) (sku_id warehouse_id : Text) (st : Store) where
  pub ensure_item-reservations :
      (ensure_item cfg fresh sku_id warehouse_id st).1.reservations ≡ st.reservations
  unfolding ensure_item
  ensure_item-reservations = ground arith

  pub get-ensure_item :
      get (item_key warehouse_id sku_id) (ensure_item cfg fresh sku_id warehouse_id st).1.items
      ≡ some (ensure_item cfg fresh sku_id warehouse_id st).0
  unfolding ensure_item
  get-ensure_item = ground (
    arith,
    get-set_self (item_key warehouse_id sku_id) (new_item cfg fresh sku_id warehouse_id) st.items,
  )

  pub reserved_of-ensure_item :
      (k : Text)
      → reserved_of (get k (ensure_item cfg fresh sku_id warehouse_id st).1.items)
        ≡ reserved_of (get k st.items)
  unfolding ensure_item
  reserved_of-ensure_item k = ground (
    arith,
    get-set (item_key warehouse_id sku_id) k (new_item cfg fresh sku_id warehouse_id) st.items,
    text_eq_iff (item_key warehouse_id sku_id) k,
  )

  pub ensure_item-IsBalanced :
      IsBalanced st → IsBalanced (ensure_item cfg fresh sku_id warehouse_id st).1
  ensure_item-IsBalanced h k = rw (reserved_of-ensure_item k, ensure_item-reservations) (h k)

-- Writing the item of a reservation and the reservation together keeps the books, if the reserved
-- quantity moves by what the reservation counts more or less than the one it replaces.
module _ (st : Store) (j : Text) (r : Reservation) (item : Item) (stock : Quantities) where
  abbrev pub settled : Store
  settled = record (write_item (item_key r.warehouse_id r.sku_id) item stock st) {
    reservations = set j r st.reservations;
  }

  pub settled-IsBalanced :
      IsBalanced st
      → get (item_key r.warehouse_id r.sku_id) st.items ≡ some item
      → ((k : Text)
          → text_eq (item_key r.warehouse_id r.sku_id) k ≡ false
          → counted_at k (get j st.reservations) ≡ 0)
      → stock.reserved_qty
          +ℤ pos (counted_at (item_key r.warehouse_id r.sku_id) (get j st.reservations))
        ≡ item.stock.reserved_qty +ℤ pos (counted (item_key r.warehouse_id r.sku_id) r)
      → IsBalanced settled
  settled-IsBalanced h at_key other moved k = elim (Bool-cases (text_eq key k)) [
    | inl e ↦
        subst (λ (t : Text). reserved_of (get t settled.items) ≡ pos (held t settled.reservations))
          ((text_eq_iff key k).0 e) same
    | inr e ↦
        rw (get-set key k (record item { stock = stock }) st.items, e)
          (grind (int_laws, h k, held-set k j r st.reservations, other k e, zero_counted k e))
  ]
    where
      key : Text
      key = item_key r.warehouse_id r.sku_id

      zero_counted : (t : Text) → text_eq key t ≡ false → counted t r ≡ 0
      zero_counted t e = rw e

      before : item.stock.reserved_qty ≡ pos (held key st.reservations)
      before = rw at_key at (h key)

      same : reserved_of (get key settled.items) ≡ pos (held key settled.reservations)
      same =
          rw (get-set_self key (record item { stock = stock }) st.items)
            (grind (int_laws, before, moved, held-set key j r st.reservations))
