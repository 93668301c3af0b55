-- ===== src/Order/Checkout/Booked.antt =====
-- What an accepted checkout books (services/order-service/src/main.ts, `reserveInventory`), on any
-- inventory service that keeps the laws of the ledger.
use kuajing.Base.{
  ℕ, ◌+◌, ◌≤◌, ◌<◌, ◌≡◌, ◌≢◌, ◌∙◌, refl, ap, sym, subst, none, some, List, [], ◌∷◌, ◌++◌, arith,
  inl, inr, Bool-cases,
}
use kuajing.Base.Text.{Text}
use kuajing.Base.Failure.{Result, ok, Result-cases}
use kuajing.Inventory.Types.{ReservationStatus, ReservationResult}
use kuajing.Inventory.Contract.{is_partial, InventoryService, IsLedger}
use kuajing.Order.Service.{Delivery, answered, lost, late, Network, trying, call_inventory}
use kuajing.Order.Checkout.{Line, line_key, request_of, reserve_lines, reserve_inventory}
use kuajing.Order.Checkout.Cancelling.{line_key-injective}

-- A call that returned a result was answered, and the service accepted it.
call_ok :
    {S : Type 0} (delivery : Delivery) (operation : S → Result ReservationResult × S) (st : S)
    {res : ReservationResult}
    → (call_inventory delivery operation st).0 ≡ ok res
    → ((operation st).0 ≡ ok res) × ((call_inventory delivery operation st).1 ≡ (operation st).1)
call_ok answered operation st h = (
  elim (Result-cases (operation st).0) [
    | inr (e, f) ↦ absurd (ground arith)
    | inl (r, f) ↦ elim (Bool-cases (is_partial r)) [
      | inl g ↦ absurd (ground arith)
      | inr g ↦ ground arith
    ]
  ],
  refl,
)
call_ok late operation st h = absurd (ground arith)
call_ok lost operation st h = absurd (ground arith)

module _ (s : InventoryService) (laws : IsLedger s) (net : Network)
    (order_key order_id : Text) where
  open laws use {try_new, try_others}

  abbrev key : ℕ → Text
  key = line_key order_key

  -- Each line, from an index on, has an open booking of its SKU and its quantity.
  abbrev pub AllBooked : ℕ → List Line → s.Store → Type 0
  AllBooked index [] st = Unit {0}
  AllBooked index (line ∷ lines) st =
      (s.booking (key index) st
        ≡ some (record {
          sku_id = line.sku_id;
          qty = line.quantity;
          status = ReservationStatus.reserved;
        }))
      × AllBooked (index + 1) lines st

  abbrev called : ℕ → Line → s.Store → Result ReservationResult × s.Store
  called index line =
      call_inventory (net trying (key index))
        (s.try_reserve (request_of order_key order_id index line))

  abbrev reserving :
      ℕ → List Line → List ReservationResult → s.Store → Result (List ReservationResult) × s.Store
  reserving = reserve_lines s net order_key order_id

  -- A checkout that went through had its first line accepted, and the rest too.
  reserve_lines-next :
      (index : ℕ) (line : Line) (lines : List Line) (made : List ReservationResult) (st : s.Store)
      {rs : List ReservationResult}
      → (reserving index (line ∷ lines) made st).0 ≡ ok rs
      → (res : ReservationResult) × ((s.try_reserve (request_of order_key order_id index line) st).0
          ≡ ok res)
        × (reserving index (line ∷ lines) made st
            ≡ reserving
                (index + 1)
                lines
                (made ++ (res ∷ []))
                (s.try_reserve (request_of order_key order_id index line) st).1)
  unfolding reserve_lines
  reserve_lines-next index line lines made st h = elim (Result-cases (called index line st).0) [
    | inr (e, f) ↦ absurd (ground arith)
    | inl (res, f) ↦
        let (accepted, same) =
          call_ok (net trying (key index))
            (s.try_reserve (request_of order_key order_id index line)) st f in
        (res, accepted, rw (f, reserve_lines) (rw same refl))
  ]

  other_key : (i index : ℕ) → i < index → key index ≢ key i
  other_key i index h e = absurd (omega (arith, h, line_key-injective order_key index i e))

  -- The lines from an index on leave the bookings of those before it.
  reserve_lines-before :
      (index i : ℕ) (lines : List Line) (made : List ReservationResult) (st : s.Store)
      {rs : List ReservationResult}
      → i < index
      → (reserving index lines made st).0 ≡ ok rs
      → s.booking (key i) (reserving index lines made st).1 ≡ s.booking (key i) st
  unfolding reserve_lines
  reserve_lines-before index i [] made st h e = refl
  reserve_lines-before index i (line ∷ lines) made st h e =
      let (res, accepted, next) = reserve_lines-next index line lines made st e in
      let st' = (s.try_reserve (request_of order_key order_id index line) st).1 in
      ap (λ p. s.booking (key i) p.1) next
      ∙ reserve_lines-before (index + 1) i lines (made ++ (res ∷ [])) st' (omega (arith, h))
          (ap (λ p. p.0) (sym next) ∙ e)
      ∙ try_others (request_of order_key order_id index line) (key i) st (other_key i index h)

  reserve_lines-AllBooked :
      (index : ℕ) (lines : List Line) (made : List ReservationResult) (st : s.Store)
      {rs : List ReservationResult}
      → ((j : ℕ) → index ≤ j → s.booking (key j) st ≡ none)
      → (reserving index lines made st).0 ≡ ok rs
      → AllBooked index lines (reserving index lines made st).1
  unfolding reserve_lines
  reserve_lines-AllBooked index [] made st unused e = tt
  reserve_lines-AllBooked index (line ∷ lines) made st unused e =
      let (res, accepted, next) = reserve_lines-next index line lines made st e in
      let input = request_of order_key order_id index line in
      let rest = ap (λ p. p.0) (sym next) ∙ e in
      subst (λ p. AllBooked index (line ∷ lines) p.1) (sym next)
        (
          reserve_lines-before (index + 1) index lines (made ++ (res ∷ []))
                (s.try_reserve input st).1 (omega arith) rest
              ∙ (try_new input st (unused index (omega arith)) accepted).0,
          reserve_lines-AllBooked (index + 1) lines (made ++ (res ∷ [])) (s.try_reserve input st).1
              (λ j h.
                try_others input (key j) st (other_line index j h) ∙ unused j (omega (arith, h)))
              rest,
        )
    where
      other_line : (index j : ℕ) → index + 1 ≤ j → key index ≢ key j
      other_line index j h e = absurd (omega (arith, h, line_key-injective order_key index j e))

  -- A checkout that goes through, under a key whose line keys are all unused, leaves an open booking
  -- of each line's SKU and quantity.
  pub reserve_inventory-AllBooked :
      (lines : List Line) (st : s.Store) {rs : List ReservationResult}
      → ((j : ℕ) → s.booking (line_key order_key j) st ≡ none)
      → (reserve_inventory s net order_key order_id lines st).0 ≡ ok rs
      → AllBooked 0 lines (reserve_inventory s net order_key order_id lines st).1
  unfolding reserve_inventory
  reserve_inventory-AllBooked lines st unused =
      reserve_lines-AllBooked 0 lines [] st (λ j h. unused j)
