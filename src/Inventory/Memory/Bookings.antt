-- ===== src/Inventory/Memory/Bookings.antt =====
-- What the calls of `InventoryMemoryStore` do to the booking of a key
-- (services/inventory-service/src/main.ts).
use mathlib.Core.Option
use kuajing.Base.{
  ◌≡◌, ◌≢◌, refl, ◌∙◌, Option, none, some, if◌then◌else◌, arith, inl, inr, ◌⊎◌, Bool-cases,
  Option-cases,
}
use kuajing.Base.Int.{pos, ltb_ℤ}
use kuajing.Base.Text.{Text, text_eq, text_eq_iff, text_eq_refl}
use kuajing.Base.Dict.{Dict, get, set, get-set}
use kuajing.Base.Failure.{ok, err, http, not_found, inventory_shortage}
use kuajing.Inventory.Types.{
  ReservationStatus, reserved, confirmed, cancelled, ReservationStatus-cases, ReservationInput,
  Config, Fresh, sellable,
}
use kuajing.Inventory.Contract.{Booking, settle}
use kuajing.Inventory.Memory.{
  Reservation, Store, new_store, ensure_item, result_from_memory, replay, try_reserve, confirm,
  cancel,
}
use kuajing.Inventory.Memory.Ledger.{ensure_item-reservations}
use kuajing.Inventory.Memory.Reserve.{
  place, found, booked, booked_store, taken, try_reserve-short, try_reserve-enough,
  try_reserve-used,
}
use kuajing.Inventory.Memory.Settle.{
  confirm-reserved, confirm-confirmed, confirm-cancelled, cancel-reserved, cancel-cancelled,
  cancel-confirmed,
}

abbrev pub booking_of : Reservation → Booking
booking_of r = record { sku_id = r.sku_id; qty = r.qty; status = r.status }

abbrev pub booking : Text → Store → Option Booking
booking k st = Option.map booking_of (get k st.reservations)

-- The booking of a key after the booking of another was settled.
abbrev pub settled_at : ReservationStatus → Text → Text → Store → Option Booking
settled_at status j k st =
    if text_eq j k then Option.map (settle status) (booking j st) else booking k st

module _ (j k : Text) (st : Store) where
  unsettled :
      {r : Reservation} (status : ReservationStatus)
      → get j st.reservations ≡ some r
      → settle status (booking_of r) ≡ booking_of r
      → booking k st ≡ settled_at status j k st
  unsettled status e same = elim (Bool-cases (text_eq j k)) [
    | inl f ↦ rw (← (text_eq_iff j k).0 f, text_eq_refl j, e, same) refl
    | inr f ↦ rw f refl
  ]

  settled_write :
      {r : Reservation} (status : ReservationStatus) (m : Dict Reservation)
      → get j st.reservations ≡ some r
      → r.status ≡ reserved
      → m ≡ st.reservations
      → Option.map booking_of (get k (set j (record r { status = status }) m))
        ≡ settled_at status j k st
  settled_write {r} status m e f same =
      rw (same, get-set j k (record r { status = status }) st.reservations, e)
        (elim (Bool-cases (text_eq j k)) [ inl h ↦ rw h (rw f refl) | inr h ↦ rw h refl ])

module _ (cfg : Config) (fresh : Fresh) (j k : Text) (st : Store) where
  ensured :
      (r : Reservation)
      → booking k (ensure_item cfg fresh r.sku_id r.warehouse_id st).1 ≡ booking k st
  ensured r = rw (ensure_item-reservations cfg fresh r.sku_id r.warehouse_id st) refl

  missing :
      (status : ReservationStatus)
      → get j st.reservations ≡ none
      → booking k st ≡ settled_at status j k st
  missing status e = elim (Bool-cases (text_eq j k)) [
    | inl f ↦ rw (← (text_eq_iff j k).0 f, text_eq_refl j, e) refl
    | inr f ↦ rw f refl
  ]

  confirm-missing :
      get j st.reservations ≡ none → confirm cfg fresh j st ≡ (err (http not_found), st)
  unfolding confirm
  confirm-missing e = ground arith

  cancel-missing : get j st.reservations ≡ none → cancel cfg fresh j st ≡ (err (http not_found), st)
  unfolding cancel
  cancel-missing e = ground arith

  pub booking-confirm : booking k (confirm cfg fresh j st).1 ≡ settled_at confirmed j k st
  booking-confirm = elim (Option-cases (get j st.reservations)) [
    | inl e ↦ rw (confirm-missing e) (missing confirmed e)
    | inr (r, e) ↦ elim (ReservationStatus-cases r.status) [
      | inl f ↦ rw (confirm-reserved cfg fresh j r st e f) (
          settled_write j k st confirmed _ e f
            (ensure_item-reservations cfg fresh r.sku_id r.warehouse_id st))
      | inr (inl f) ↦
          rw (confirm-confirmed cfg fresh j r st e f)
            (ensured r ∙ unsettled j k st confirmed e (rw f refl))
      | inr (inr f) ↦
          rw (confirm-cancelled cfg fresh j r st e f)
            (ensured r ∙ unsettled j k st confirmed e (rw f refl))
    ]
  ]

  pub booking-cancel : booking k (cancel cfg fresh j st).1 ≡ settled_at cancelled j k st
  booking-cancel = elim (Option-cases (get j st.reservations)) [
    | inl e ↦ rw (cancel-missing e) (missing cancelled e)
    | inr (r, e) ↦ elim (ReservationStatus-cases r.status) [
      | inl f ↦ rw (cancel-reserved cfg fresh j r st e f) (
          settled_write j k st cancelled _ e f
            (ensure_item-reservations cfg fresh r.sku_id r.warehouse_id st))
      | inr (inl f) ↦
          rw (cancel-confirmed cfg fresh j r st e f)
            (ensured r ∙ unsettled j k st cancelled e (rw f refl))
      | inr (inr f) ↦
          rw (cancel-cancelled cfg fresh j r st e f)
            (ensured r ∙ unsettled j k st cancelled e (rw f refl))
    ]
  ]

pub settled_self :
    (status : ReservationStatus) (k : Text) (st : Store)
    → settled_at status k k st ≡ Option.map (settle status) (booking k st)
settled_self status k st = rw (text_eq_refl k) refl

pub settled_other :
    (status : ReservationStatus) (j k : Text) (st : Store)
    → j ≢ k
    → settled_at status j k st ≡ booking k st
settled_other status j k st h = elim (Bool-cases (text_eq j k)) [
  | inl e ↦ absurd (h ((text_eq_iff j k).0 e))
  | inr e ↦ rw e refl
]

module _ (cfg : Config) (fresh : Fresh) (input : ReservationInput) (st : Store) where
  abbrev key : Text
  key = input.idempotency_key

  kept :
      (k sku_id warehouse_id : Text)
      → booking k (ensure_item cfg fresh sku_id warehouse_id st).1 ≡ booking k st
  kept k sku_id warehouse_id = rw (ensure_item-reservations cfg fresh sku_id warehouse_id st) refl

  replay-booking :
      (k : Text) (r : Reservation) → booking k (replay cfg fresh input r st).1 ≡ booking k st
  unfolding replay
  replay-booking k r = ground (arith, kept k r.sku_id r.warehouse_id)

  used_of :
      {b : Booking}
      → booking key st ≡ some b
      → (r : Reservation) × (get key st.reservations ≡ some r)
  used_of used = elim (Option-cases (get key st.reservations)) [ inl e ↦ ground arith | inr p ↦ p ]

  pub booking-try_reserve_used :
      {b : Booking}
      → booking key st ≡ some b
      → (k : Text) → booking k (try_reserve cfg fresh input st).1 ≡ booking k st
  booking-try_reserve_used used k =
      let (r, e) = used_of used in
      rw (try_reserve-used cfg fresh input st fresh st r e) (replay-booking k r)

  new_of : booking key st ≡ none → get key st.reservations ≡ none
  new_of unused = elim (Option-cases (get key st.reservations)) [
    | inl e ↦ e
    | inr (r, e) ↦ ground arith
  ]

  pub booked-booking :
      (k : Text)
      → booking k (booked_store cfg fresh input st) ≡ (
          if text_eq key k
          then some (record { sku_id = input.sku_id; qty = input.qty; status = reserved })
          else booking k st)
  booked-booking k =
      rw (get-set key k (booked cfg fresh input st) (found cfg fresh input st).1.reservations)
        (elim (Bool-cases (text_eq key k)) [
          | inl e ↦ rw e refl
          | inr e ↦ rw e (kept k input.sku_id (place cfg fresh input st))
        ])

  -- What a reservation under a new key does: it is refused and no key is booked, or it is accepted.
  pub try_reserve_new :
      booking key st ≡ none
      → (((try_reserve cfg fresh input st).0 ≡ err (http inventory_shortage))
          × ((k : Text) → booking k (try_reserve cfg fresh input st).1 ≡ booking k st))
        ⊎ (try_reserve cfg fresh input st ≡ (
          ok (
              result_from_memory
                (booked cfg fresh input st)
                (record (found cfg fresh input st).0 { stock = taken cfg fresh input st })),
          booked_store cfg fresh input st,
        ))
  try_reserve_new unused =
      elim (Bool-cases (ltb_ℤ (sellable (found cfg fresh input st).0.stock) (pos input.qty))) [
        | inl short ↦ inl (
            rw (try_reserve-short cfg fresh input st (new_of unused) short)
              (refl, λ k. kept k input.sku_id (place cfg fresh input st)))
        | inr enough ↦ inr (try_reserve-enough cfg fresh input st (new_of unused) enough)
      ]

  pub booking-try_reserve_other :
      (k : Text) → key ≢ k → booking k (try_reserve cfg fresh input st).1 ≡ booking k st
  booking-try_reserve_other k h = elim (Option-cases (booking key st)) [
    | inr (b, used) ↦ booking-try_reserve_used used k
    | inl unused ↦ elim (try_reserve_new unused) [
      | inl (_, same) ↦ same k
      | inr done ↦ rw done (booked-booking k ∙ ground (arith, text_eq_iff key k))
    ]
  ]

pub new_store-booking :
    (cfg : Config) (fresh : Fresh) (k : Text) → booking k (new_store cfg fresh) ≡ none
unfolding new_store get
new_store-booking cfg fresh k =
    rw (ensure_item-reservations cfg fresh cfg.default_sku_id cfg.default_warehouse_id _) refl
