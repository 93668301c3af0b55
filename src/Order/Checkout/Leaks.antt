-- ===== src/Order/Checkout/Leaks.antt =====
-- What a checkout does to stock when answers come late, and when it is repeated
-- (services/order-service/src/main.ts, `reserveInventory`).
use kuajing.Base.{ℕ, ◌≡◌, refl, sym, ap, subst, ◌+◌, ◌∙◌, true, false, none, List, [], ◌∷◌, ◌++◌}
use kuajing.Base.Text.{Text}
use kuajing.Base.Failure.{http, Result, ok, err, dependency_unavailable}
use kuajing.Inventory.Types.{reserved, ReservationResult}
use kuajing.Inventory.Contract.{is_open, is_partial, InventoryService, IsLedger}
use kuajing.Order.Service.{answered, lost, late, Network, trying, cancelling}
use kuajing.Order.Checkout.{
  Line, line_key, request_of, cancel_inventory, reserve_lines, reserve_inventory,
}
use kuajing.Order.Checkout.Cancelling.{settled_closed}

module _ (s : InventoryService) (laws : IsLedger s) (net : Network) (order_key order_id : Text)
    (line : Line) (lines : List Line) (st : s.Store) where
  open laws use {try_new, try_used}

  abbrev first_key : Text
  first_key = line_key order_key 0

  -- If the service accepts the reservation of a checkout's first line under an unused key, and its
  -- answer comes too late, the checkout fails, and the booking stays open.
  pub reserve_inventory_late :
      {res : ReservationResult}
      → s.booking first_key st ≡ none
      → net trying first_key ≡ late
      → (s.try_reserve (request_of order_key order_id 0 line) st).0 ≡ ok res
      → let (answer, st') = reserve_inventory s net order_key order_id (line ∷ lines) st in
        (answer ≡ err (http dependency_unavailable)) × (is_open (s.booking first_key st') ≡ true)
  unfolding reserve_inventory reserve_lines cancel_inventory
  reserve_inventory_late unused slow accepted =
      let (booked, _, _, _) = try_new (request_of order_key order_id 0 line) st unused accepted in
      rw (slow, reserve_lines) (rw slow (refl, rw booked refl))

  reserve_lines-replayed :
      (index : ℕ) (made : List ReservationResult) {res : ReservationResult}
      → net trying (line_key order_key index) ≡ answered
      → (s.try_reserve (request_of order_key order_id index line) st).0 ≡ ok res
      → is_partial res ≡ false
      → reserve_lines s net order_key order_id index (line ∷ lines) made st
        ≡ reserve_lines s net order_key order_id
            (index + 1)
            lines
            (made ++ (res ∷ []))
            (s.try_reserve (request_of order_key order_id index line) st).1
  unfolding reserve_lines
  reserve_lines-replayed index made there accepted whole =
      rw (there, reserve_lines) (rw accepted (rw whole (rw there refl)))

  reserve_lines-lost :
      (index : ℕ) (made : List ReservationResult)
      → net trying (line_key order_key index) ≡ lost
      → reserve_lines s net order_key order_id index (line ∷ lines) made st
        ≡ (err (http dependency_unavailable), cancel_inventory s net made st)
  unfolding reserve_lines
  reserve_lines-lost index made gone = rw (gone, reserve_lines) (rw gone refl)

module _ (s : InventoryService) (laws : IsLedger s) (net : Network) (order_key order_id : Text)
    (line second : Line) (lines : List Line) (st : s.Store) where
  open laws use {cancel_settles}

  cancel_inventory-one :
      (res : ReservationResult) (st' : s.Store) {k : Text}
      → net cancelling k ≡ answered
      → res.status ≡ reserved
      → res.idempotency_key ≡ k
      → cancel_inventory s net (res ∷ []) st' ≡ (s.cancel k st').1
  unfolding cancel_inventory
  cancel_inventory-one res st' back still same = rw (still, same, back, cancel_inventory) refl

  -- A checkout that is repeated cancels the stock of the order that the first one made, if its
  -- second line does not arrive: the reservation of the first line is answered again, and is taken
  -- for one of this checkout.
  pub reserve_inventory_retry :
      {res : ReservationResult}
      → net trying (line_key order_key 0) ≡ answered
      → net cancelling (line_key order_key 0) ≡ answered
      → net trying (line_key order_key 1) ≡ lost
      → (s.try_reserve (request_of order_key order_id 0 line) st).0 ≡ ok res
      → is_partial res ≡ false
      → res.status ≡ reserved
      → res.idempotency_key ≡ line_key order_key 0
      → let (answer, st') = reserve_inventory s net order_key order_id (line ∷ second ∷ lines) st in
        (answer ≡ err (http dependency_unavailable))
        × (is_open (s.booking (line_key order_key 0) st') ≡ false)
  unfolding reserve_inventory
  reserve_inventory_retry {res} there back gone accepted whole still same =
      subst
        (λ (p : Result (List ReservationResult) × s.Store).
          (p.0 ≡ err (http dependency_unavailable))
          × (is_open (s.booking (line_key order_key 0) p.1) ≡ false))
        (sym (
          reserve_lines-replayed s laws net order_key order_id line (second ∷ lines) st 0 [] there
            accepted whole
          ∙ reserve_lines-lost s laws net order_key order_id second lines st1 1 (res ∷ []) gone
          ∙ ap (λ (p : s.Store). (err (http dependency_unavailable), p))
              (cancel_inventory-one res st1 back still same)))
        (
          refl,
          rw (cancel_settles (line_key order_key 0) st1)
              (settled_closed (s.booking (line_key order_key 0) st1)),
        )
    where
      st1 : s.Store
      st1 = (s.try_reserve (request_of order_key order_id 0 line) st).1
