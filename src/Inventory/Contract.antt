-- ===== src/Inventory/Contract.antt =====
-- What the inventory service promises its clients: a ledger of reservation keys
-- (services/inventory-service/src/main.ts), as an interface with laws. The theorems on
-- the order service rely on nothing else. It is not stated of the PostgreSQL storage, which may
-- refuse to confirm an open booking for want of stock.
use mathlib.Core.Option
use kuajing.Base.{ℕ, ◌≡◌, ◌≢◌, Bool, true, false, ◌||◌, Option, none, some}
use kuajing.Base.Text.{Text, is_blank}
use kuajing.Base.Failure.{Failure, Result, ok, err}
use kuajing.Inventory.Types.{
  ReservationStatus, reserved, confirmed, cancelled, ReservationInput, ReservationResult,
}

-- An entry of the ledger.
pub record Booking : Type 0 where
  pub sku_id : Text
  pub qty : ℕ
  pub status : ReservationStatus

-- An open booking is settled; a booking that was settled before stays.
abbrev pub settle : ReservationStatus → Booking → Booking
settle status b = elim b.status [
  | reserved ↦ record b { status = status }
  | confirmed ↦ b
  | cancelled ↦ b
]

abbrev pub is_open : Option Booking → Bool
is_open none = false
is_open (some b) = elim b.status [ reserved ↦ true | confirmed ↦ false | cancelled ↦ false ]

pub record InventoryService : Type 1 where
  pub Store : Type 0
  pub try_reserve : ReservationInput → Store → Result ReservationResult × Store
  pub confirm : Text → Store → Result ReservationResult × Store
  pub cancel : Text → Store → Result ReservationResult × Store
  -- the entry of a key
  pub booking : Text → Store → Option Booking

-- A result with an empty id, which a client takes for no result.
abbrev pub is_partial : ReservationResult → Bool
is_partial res = is_blank res.reservation_id || is_blank res.sku_id || is_blank res.warehouse_id

-- The laws of the ledger.
pub record IsLedger (s : InventoryService) : Type 0 where
  -- an accepted reservation under a new key is an open booking of the SKU and the quantity
  pub try_new :
      (input : ReservationInput) (st : s.Store) {res : ReservationResult}
      → s.booking input.idempotency_key st ≡ none
      → (s.try_reserve input st).0 ≡ ok res
      → (s.booking input.idempotency_key (s.try_reserve input st).1
          ≡ some (record { sku_id = input.sku_id; qty = input.qty; status = reserved }))
        × (res.status ≡ reserved)
        × (res.idempotency_key ≡ input.idempotency_key)
        × (is_blank input.sku_id ≡ false → input.warehouse_id ≡ none → is_partial res ≡ false)
  -- a key that is in use is not booked again, and one that was refused is not booked
  pub try_used :
      (input : ReservationInput) (st : s.Store) {b : Booking}
      → s.booking input.idempotency_key st ≡ some b
      → s.booking input.idempotency_key (s.try_reserve input st).1 ≡ some b
  pub try_refused :
      (input : ReservationInput) (st : s.Store) {e : Failure}
      → (s.try_reserve input st).0 ≡ err e
      → s.booking input.idempotency_key (s.try_reserve input st).1
        ≡ s.booking input.idempotency_key st
  -- confirming and cancelling settle the booking of the key
  pub confirm_settles :
      (k : Text) (st : s.Store)
      → s.booking k (s.confirm k st).1 ≡ Option.map (settle confirmed) (s.booking k st)
  pub cancel_settles :
      (k : Text) (st : s.Store)
      → s.booking k (s.cancel k st).1 ≡ Option.map (settle cancelled) (s.booking k st)
  -- no call touches another key
  pub try_others :
      (input : ReservationInput) (k : Text) (st : s.Store)
      → input.idempotency_key ≢ k
      → s.booking k (s.try_reserve input st).1 ≡ s.booking k st
  pub confirm_others :
      (j k : Text) (st : s.Store) → j ≢ k → s.booking k (s.confirm j st).1 ≡ s.booking k st
  pub cancel_others :
      (j k : Text) (st : s.Store) → j ≢ k → s.booking k (s.cancel j st).1 ≡ s.booking k st
