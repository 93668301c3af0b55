-- ===== src/Order/Checkout/AllOrNothing.antt =====
-- A checkout reserves all of its lines or none (services/order-service/src/main.ts,
-- `reserveInventory`), on any inventory service that keeps the laws of the ledger.
use kuajing.Base.{
  ℕ, ◌+◌, ◌≤◌, ◌<◌, ◌≡◌, ◌≢◌, ◌⊎◌, refl, subst, true, false, none, List, [], ◌∷◌, ◌++◌, arith, inl,
  inr, Bool-cases, All, length, ◌==◌, ltb,
}
use kuajing.Base.Text.{Text, text_eq_refl, is_blank}
use kuajing.Base.Failure.{Failure, Result, ok, err, Result-cases}
use kuajing.Inventory.Types.{ReservationInput, ReservationResult}
use kuajing.Inventory.Contract.{is_open, is_partial, InventoryService, IsLedger}
use kuajing.Order.Service.{answered, lost, Network, trying, cancelling}
use kuajing.Order.Checkout.{
  Line, line_key, request_of, cancel_inventory, reserve_lines, reserve_inventory,
}
use kuajing.Order.Checkout.Cancelling.{
  line_key-injective, same, apart, among, among-append, Closed, cancel_inventory-Closed,
  cancel_inventory-among,
}

module _ (s : InventoryService) (laws : IsLedger s) (net : Network)
    (cancels : (k : Text) → net cancelling k ≡ answered) where
  open laws use {try_new, try_refused, try_others}

  module _ (order_key order_id : Text) where
    abbrev key : ℕ → Text
    key = line_key order_key

    -- The bookings of the lines below a number: all open and returned if the checkout went through,
    -- none open if not.
    abbrev pub IsAllOrNothing : ℕ → Result (List ReservationResult) × s.Store → Type 0
    IsAllOrNothing n (ok rs, st) =
        (j : ℕ) → j < n → (is_open (s.booking (key j) st) ≡ true) × (among (key j) rs ≡ true)
    IsAllOrNothing n (err e, st) = (j : ℕ) → j < n → is_open (s.booking (key j) st) ≡ false

    -- What the loop knows before a line: the lines before it are booked and on the list, those from
    -- it on are not.
    abbrev IsReserved : ℕ → List ReservationResult → s.Store → Type 0
    IsReserved index made st =
        ((j : ℕ)
          → j < index
          → (is_open (s.booking (key j) st) ≡ true) × (among (key j) made ≡ true))
        × ((j : ℕ) → index ≤ j → s.booking (key j) st ≡ none)

    other_line : (i j : ℕ) → i ≢ j → key i ≢ key j
    other_line i j h e = h (line_key-injective order_key i j e)

    given_up :
        (index n : ℕ) (made : List ReservationResult) (st : s.Store)
        → ((j : ℕ) → j < index → among (key j) made ≡ true)
        → ((j : ℕ) → index ≤ j → Closed s laws net cancels (key j) st)
        → (j : ℕ) → j < n
        → Closed s laws net cancels (key j) (cancel_inventory s net made st)
    given_up index n made st before after j h = elim (Bool-cases (ltb j index)) [
      | inl e ↦ cancel_inventory-among s laws net cancels made (key j) st (before j (ground arith))
      | inr e ↦ cancel_inventory-Closed s laws net cancels made (key j) st (after j (ground arith))
    ]

    module _ (index : ℕ) (line : Line) (made : List ReservationResult) (st : s.Store)
        (known : IsReserved index made st) where
      abbrev input : ReservationInput
      input = request_of order_key order_id index line

      abbrev tried : Result ReservationResult × s.Store
      tried = s.try_reserve input st

      refused_after :
          {e : Failure}
          → tried.0 ≡ err e
          → (j : ℕ) → index ≤ j
          → Closed s laws net cancels (key j) tried.1
      refused_after refused j h = elim (Bool-cases (index == j)) [
        | inl e ↦
            subst (λ i. Closed s laws net cancels (key i) tried.1) (same index j e)
              (rw (try_refused input st refused) (rw (known.1 index (omega arith)) refl))
        | inr e ↦
            rw (try_others input (key j) st (other_line index j (apart index j e)))
              (rw (known.1 j h) refl)
      ]

      accepted_after :
          {res : ReservationResult}
          → tried.0 ≡ ok res
          → IsReserved (index + 1) (made ++ (res ∷ [])) tried.1
      accepted_after {res} accepted = (before, after)
        where
          before :
              (j : ℕ)
              → j < index + 1
              → (is_open (s.booking (key j) tried.1) ≡ true)
                × (among (key j) (made ++ (res ∷ [])) ≡ true)
          before j h = elim (Bool-cases (index == j)) [
            | inl e ↦
                subst
                  (λ i.
                    (is_open (s.booking (key i) tried.1) ≡ true)
                    × (among (key i) (made ++ (res ∷ [])) ≡ true))
                  (same index j e)
                  (let (booked, is_res, keyed, _) =
                      try_new input st (known.1 index (omega arith)) accepted in
                    (
                      rw booked refl,
                      rw (among-append (key index) made res, keyed, is_res)
                          (ground (arith, text_eq_refl (key index))),
                    ))
            | inr e ↦
                let (held, listed) = known.0 j (omega (arith, h, apart index j e)) in
                (
                  rw (try_others input (key j) st (other_line index j (apart index j e))) held,
                  rw (among-append (key j) made res, listed) refl,
                )
          ]

          after : (j : ℕ) → index + 1 ≤ j → s.booking (key j) tried.1 ≡ none
          after j h =
              rw (try_others input (key j) st (other_line index j (omega (arith, h))))
                (known.1 j (omega (arith, h)))

    reserve_lines-IsAllOrNothing :
        (index : ℕ) (lines : List Line) (made : List ReservationResult) (st : s.Store)
        → ((k : Text) → (net trying k ≡ answered) ⊎ (net trying k ≡ lost))
        → All (λ (l : Line). is_blank l.sku_id ≡ false) lines
        → IsReserved index made st
        → IsAllOrNothing
            (index + length lines)
            (reserve_lines s net order_key order_id index lines made st)
    unfolding reserve_lines
    reserve_lines-IsAllOrNothing index [] made st tries skus known =
        λ j h. known.0 j (omega (arith, h))
    reserve_lines-IsAllOrNothing index (line ∷ lines) made st tries (sku, skus) known =
        elim (tries (key index)) [
          | inr gone ↦
              rw (gone, reserve_lines)
                (rw gone (given_up index _ made st before λ j h. rw (known.1 j h) refl))
          | inl there ↦
              rw (there, reserve_lines)
                (elim (Result-cases (tried index line made st known).0) [
                  | inr (e, refused) ↦ rw refused (
                      rw there (
                        given_up index _ made _ before
                          (refused_after index line made st known refused)))
                  | inl (res, accepted) ↦ rw accepted (
                      rw (whole accepted) (
                        rw there (
                          subst
                            (λ n. IsAllOrNothing n (
                              reserve_lines s net order_key order_id (index + 1) lines
                                (made ++ (res ∷ [])) (tried index line made st known).1))
                            shift
                            (reserve_lines-IsAllOrNothing (index + 1) lines (made ++ (res ∷ [])) _
                              tries skus (accepted_after index line made st known accepted)))))
                ])
        ]
      where
        before : (j : ℕ) → j < index → among (key j) made ≡ true
        before j h = (known.0 j h).1

        shift : index + 1 + length lines ≡ index + length (line ∷ lines)
        shift = omega arith

        whole :
            {res : ReservationResult}
            → (tried index line made st known).0 ≡ ok res
            → is_partial res ≡ false
        whole accepted =
            let (_, _, _, complete) =
              try_new (input index line made st known) st (known.1 index (omega arith)) accepted in
            complete sku refl

  -- A checkout under an order key whose line keys are all unused reserves every line and returns
  -- a reservation of each, or leaves no booking of a line open, on any inventory service that keeps the laws of the ledger. The calls
  -- that cancel are all answered, and a call that reserves is answered or does not arrive; every
  -- line names a SKU.
  pub reserve_inventory-IsAllOrNothing :
      (order_key order_id : Text) (lines : List Line) (st : s.Store)
      → ((k : Text) → (net trying k ≡ answered) ⊎ (net trying k ≡ lost))
      → All (λ (l : Line). is_blank l.sku_id ≡ false) lines
      → ((j : ℕ) → s.booking (line_key order_key j) st ≡ none)
      → IsAllOrNothing order_key order_id
          (length lines)
          (reserve_inventory s net order_key order_id lines st)
  unfolding reserve_inventory
  reserve_inventory-IsAllOrNothing order_key order_id lines st tries skus unused =
      subst
        (λ n.
          IsAllOrNothing order_key order_id n
            (reserve_lines s net order_key order_id 0 lines [] st))
        {x = 0 + length lines} (omega arith)
        (reserve_lines-IsAllOrNothing order_key order_id 0 lines [] st tries skus
          (λ j h. absurd (omega (arith, h)), λ j h. unused j))
