-- ===== src/Logistics/Postgres/Log.antt =====
-- The events of one shipment in the tables, after an INSERT and after an UPDATE
-- (services/logistics-service/src/main.ts).
use kuajing.Base.{
  ℕ, ◌≡◌, refl, subst, Bool, true, false, ◌&&◌, Option, none, some, List, [], ◌∷◌, ◌++◌, map,
  if◌then◌else◌, find, find-append_cases, find-map, find_passes, arith, inl, inr, Bool-cases,
}
use kuajing.Base.Text.{Text, text_eq, text_eq_iff}
use kuajing.Logistics.Status.{Status, shipped, delivered, status_eq, may_move}
use kuajing.Logistics.Trail.{Move, Trail, Trail-append}
use kuajing.Logistics.Request.{CreateInput, UpdateInput}
use kuajing.Logistics.Postgres.{
  ShipmentRow, EventRow, Database, Drawn, is_shipment, is_some, new_row, first_event, next_event,
  first_time, moved, update_row,
}

abbrev pub is_event : Text → Text → EventRow → Bool
is_event store_id id e = text_eq e.store_id store_id && text_eq e.shipment_id id

-- The moves that the events of a shipment tell of.
abbrev pub log : Text → Text → List EventRow → List Move
log store_id id [] = []
log store_id id (e ∷ es) =
    let rest = log store_id id es in
    if is_event store_id id e then (e.from_status, e.to_status) ∷ rest else rest

log-append :
    (store_id id : Text) (es : List EventRow) (e : EventRow)
    → log store_id id (es ++ (e ∷ [])) ≡ (
        if is_event store_id id e
        then log store_id id es ++ ((e.from_status, e.to_status) ∷ [])
        else log store_id id es)
log-append store_id id [] e = ground arith
log-append store_id id (x ∷ es) e = ground (arith, log-append store_id id es e)

-- What the tables say of one shipment: it is missing and has no events, or its events lead from its
-- creation to its state, and it has a time of delivery exactly if it was delivered.
abbrev pub IsTracked : Option ShipmentRow → List Move → Type 0
IsTracked none ms = ms ≡ []
IsTracked (some r) ms =
    Trail none ms r.status × (is_some r.delivered_at ≡ status_eq r.status delivered)

abbrev pub AllTracked : Database → Type 0
AllTracked db =
    (store_id id : Text)
    → IsTracked (find (is_shipment store_id id) db.shipments) (log store_id id db.events)

-- A new shipment, under an id that no shipment has.
module _ (store_id : Text) (d : Drawn) (hash : Text) (input : CreateInput) (db : Database) where
  abbrev row : ShipmentRow
  row = new_row store_id d hash input

  abbrev event : EventRow
  event = first_event store_id d hash input

  new_there :
      (s id : Text)
      → is_shipment s id row ≡ true
      → find (is_shipment store_id d.shipment_id) db.shipments ≡ none
      → find (is_shipment s id) db.shipments ≡ none
  new_there s id e new =
      subst (λ x. find (is_shipment s x) db.shipments ≡ none)
        ((text_eq_iff d.shipment_id id).0 (ground arith))
        (subst (λ x. find (is_shipment x d.shipment_id) db.shipments ≡ none)
          ((text_eq_iff store_id s).0 (ground arith)) new)

  first_move :
      (found : Option ShipmentRow) (ms : List Move)
      → found ≡ none
      → IsTracked found ms
      → IsTracked (some row) (ms ++ ((none, shipped) ∷ []))
  first_move none ms f h = rw h ((refl, refl, refl), refl)
  first_move (some r) ms f h = absurd (ground arith)

  pub inserted-IsTracked :
      (s id : Text)
      → find (is_shipment store_id d.shipment_id) db.shipments ≡ none
      → IsTracked (find (is_shipment s id) db.shipments) (log s id db.events)
      → IsTracked
          (find (is_shipment s id) (db.shipments ++ (row ∷ [])))
          (log s id (db.events ++ (event ∷ [])))
  inserted-IsTracked s id new h = elim (Bool-cases (is_shipment s id row)) [
    | inl e ↦
        let there = new_there s id e new in
        rw
          (
            find-append_cases (is_shipment s id) db.shipments row,
            log-append s id db.events event,
            there,
            e,
          )
          (first_move none (log s id db.events) refl (rw there at h))
    | inr e ↦
        rw
          (
            find-append_cases (is_shipment s id) db.shipments row,
            log-append s id db.events event,
            e,
          )
          (other (find (is_shipment s id) db.shipments) (log s id db.events) (is_shipment s id row)
            e h)
  ]
    where
      other :
          (found : Option ShipmentRow) (ms : List Move) (here : Bool)
          → here ≡ false
          → IsTracked found ms
          → IsTracked
              (elim found [ some y ↦ some y | none ↦ elim here [ true ↦ some row | false ↦ none ] ])
              ms
      other none ms here e h = rw e h
      other (some r) ms here e h = h

-- A shipment that moves as it may.
module _ (store_id : Text) (id : Text) (d : Drawn) (input : UpdateInput) (key hash : Text)
    (current : ShipmentRow) (db : Database) where
  abbrev next : EventRow
  next = next_event store_id id d key hash input current.status

  abbrev update : ShipmentRow → ShipmentRow
  update = update_row store_id id input.status d.now

  same_place : (s i : Text) (r : ShipmentRow) → is_shipment s i (update r) ≡ is_shipment s i r
  same_place s i r = ground arith

  -- A delivered shipment moves nowhere else.
  delivery :
      (s t : Status)
      → may_move s t ≡ true
      → status_eq t delivered ≡ false
      → status_eq s delivered ≡ false
  delivery s t h e = ground arith

  first_time_some : (o : Option ℕ) (now : ℕ) → is_some (first_time o now) ≡ true
  first_time_some none now = refl
  first_time_some (some t) now = refl

  moved-IsTracked :
      (ms : List Move)
      → may_move current.status input.status ≡ true
      → IsTracked (some current) ms
      → IsTracked
          (some (moved input.status d.now current))
          (ms ++ ((some current.status, input.status) ∷ []))
  moved-IsTracked ms may (trail, when) = (
    Trail-append none ms current.status input.status trail may,
    elim (Bool-cases (status_eq input.status delivered)) [
      | inl e ↦ rw e (first_time_some current.delivered_at d.now)
      | inr e ↦ rw e (rw (delivery current.status input.status may e) at when)
    ],
  )

  found_at :
      (s i : Text)
      → is_event s i next ≡ true
      → find (is_shipment store_id id) db.shipments ≡ some current
      → find (is_shipment s i) db.shipments ≡ some current
  found_at s i e there =
      subst (λ x. find (is_shipment s x) db.shipments ≡ some current)
        ((text_eq_iff id i).0 (ground arith))
        (subst (λ x. find (is_shipment x id) db.shipments ≡ some current)
          ((text_eq_iff store_id s).0 (ground arith)) there)

  update-current :
      find (is_shipment store_id id) db.shipments ≡ some current
      → update current ≡ moved input.status d.now current
  update-current there = rw (find_passes (is_shipment store_id id) db.shipments current there) refl

  elsewhere :
      (s i : Text) (r : ShipmentRow)
      → is_event s i next ≡ false
      → is_shipment s i r ≡ true
      → update r ≡ r
  elsewhere s i r e f = ground (
    arith,
    text_eq_iff r.store_id s,
    text_eq_iff r.id i,
    text_eq_iff r.store_id store_id,
    text_eq_iff r.id id,
    text_eq_iff store_id s,
    text_eq_iff id i,
  )

  unmoved :
      (s i : Text) (found : Option ShipmentRow) (ms : List Move)
      → is_event s i next ≡ false
      → find (is_shipment s i) db.shipments ≡ found
      → IsTracked found ms
      → IsTracked (elim found [ none ↦ none | some y ↦ some (update y) ]) ms
  unmoved s i none ms e f h = h
  unmoved s i (some r) ms e f h =
      rw (elsewhere s i r e (find_passes (is_shipment s i) db.shipments r f)) h

  pub updated-IsTracked :
      (s i : Text)
      → find (is_shipment store_id id) db.shipments ≡ some current
      → may_move current.status input.status ≡ true
      → IsTracked (find (is_shipment s i) db.shipments) (log s i db.events)
      → IsTracked
          (find (is_shipment s i) (map update db.shipments))
          (log s i (db.events ++ (next ∷ [])))
  updated-IsTracked s i there may h = elim (Bool-cases (is_event s i next)) [
    | inl e ↦
        let at_it = found_at s i e there in
        rw
          (
            find-map (is_shipment s i) update db.shipments (same_place s i),
            log-append s i db.events next,
            e,
            at_it,
          )
          (rw (update-current there) (moved-IsTracked (log s i db.events) may (rw at_it at h)))
    | inr e ↦
        rw
          (
            find-map (is_shipment s i) update db.shipments (same_place s i),
            log-append s i db.events next,
            e,
          )
          (unmoved s i (find (is_shipment s i) db.shipments) (log s i db.events) e refl h)
  ]
