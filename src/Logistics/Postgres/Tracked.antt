-- ===== src/Logistics/Postgres/Tracked.antt =====
-- The events and the state of the shipments in PostgreSQL, over any calls
-- (services/logistics-service/src/main.ts).
use kuajing.Base.{
  ◌≡◌, ◌⊎◌, refl, Bool, true, false, ◌||◌, Option, none, some, List, [], ◌∷◌, ◌++◌, map, find,
  arith, inl, inr, Bool-cases, Option-cases,
}
use kuajing.Base.Text.{Text}
use kuajing.Base.Failure.{Result-cases}
use kuajing.Logistics.Status.{
  may_move, assert_shipment_transition, assert_shipment_transition-may_move,
}
use kuajing.Logistics.Request.{CreateInput, UpdateInput}
use kuajing.Logistics.Postgres.{
  ShipmentRow, Database, Drawn, is_shipment, is_created_by_key, is_event_key, is_some, same_parcel,
  is_taken, new_row, first_event, next_event, update_row, create_shipment, move_shipment,
  update_shipment_status,
}
use kuajing.Logistics.Postgres.Log.{AllTracked, inserted-IsTracked, updated-IsTracked}

none_of : (o : Option ShipmentRow) (b : Bool) → is_some o || b ≡ false → o ≡ none
none_of none b h = refl
none_of (some r) b h = cc

module _ (create_hash : CreateInput → Text) (update_hash : UpdateInput → Text) where
  untaken :
      (store_id : Text) (d : Drawn) (input : CreateInput) (db : Database)
      → is_taken store_id d input db ≡ false
      → find (is_shipment store_id d.shipment_id) db.shipments ≡ none
  untaken store_id d input db h = go db.shipments (
      none_of (find (same_parcel store_id d.shipment_id input) db.shipments)
        (is_some (find (is_event_key store_id input.idempotency_key) db.events)) h)
    where
      go :
          (rs : List ShipmentRow)
          → find (same_parcel store_id d.shipment_id input) rs ≡ none
          → find (is_shipment store_id d.shipment_id) rs ≡ none
      go [] e = refl
      go (r ∷ rs) e = ground (arith, go rs)

  create_shipment-cases :
      (store_id : Text) (d : Drawn) (input : CreateInput) (db : Database)
      → ((create_shipment create_hash update_hash store_id d input db).1 ≡ db)
        ⊎ ((find (is_shipment store_id d.shipment_id) db.shipments ≡ none)
            × ((create_shipment create_hash update_hash store_id d input db).1 ≡ record db {
              shipments = db.shipments ++ (new_row store_id d (create_hash input) input ∷ []);
              events = db.events ++ (first_event store_id d (create_hash input) input ∷ []);
            }))
  unfolding create_shipment
  create_shipment-cases store_id d input db =
      elim (Option-cases (find (is_created_by_key store_id input.idempotency_key) db.shipments)) [
        | inr (r, e) ↦ inl (ground arith)
        | inl e ↦ elim (Bool-cases (is_taken store_id d input db)) [
          | inl t ↦ inl (ground arith)
          | inr t ↦ inr (untaken store_id d input db t, ground arith)
        ]
      ]

  update_shipment_status-cases :
      (store_id : Text) (d : Drawn) (id : Text) (input : UpdateInput) (key : Text) (db : Database)
      → ((update_shipment_status create_hash update_hash store_id d id input key db).1 ≡ db)
        ⊎ ((r : ShipmentRow) × (find (is_shipment store_id id) db.shipments ≡ some r)
            × (may_move r.status input.status ≡ true)
            × ((update_shipment_status create_hash update_hash store_id d id input key db).1
                ≡ record db {
                  shipments = map (update_row store_id id input.status d.now) db.shipments;
                  events =
                      db.events
                      ++ (next_event store_id id d key (update_hash input) input r.status ∷ []);
                }))
  unfolding update_shipment_status move_shipment
  update_shipment_status-cases store_id d id input key db =
      elim (Option-cases (find (is_event_key store_id key) db.events)) [
        | inr (e, f) ↦ inl (ground arith)
        | inl f ↦ elim (Option-cases (find (is_shipment store_id id) db.shipments)) [
          | inl g ↦ inl (ground arith)
          | inr (r, g) ↦ elim (Result-cases (assert_shipment_transition r.status input.status)) [
            | inr (x, h) ↦ inl (ground arith)
            | inl (u, h) ↦
                inr
                  (r, g, assert_shipment_transition-may_move r.status input.status h, ground arith)
          ]
        ]
      ]

-- A call of the repository.
pub data Call : Type 0 where
  creating : Text → Drawn → CreateInput → Call
  updating : Text → Drawn → Text → UpdateInput → Text → Call

module _ (create_hash : CreateInput → Text) (update_hash : UpdateInput → Text) where
  pub perform : Call → Database → Database
  perform (creating store_id d input) db =
      (create_shipment create_hash update_hash store_id d input db).1
  perform (updating store_id d id input key) db =
      (update_shipment_status create_hash update_hash store_id d id input key db).1

  -- The tables after the calls, in their order, whatever they returned.
  pub perform_all : List Call → Database → Database
  perform_all [] db = db
  perform_all (c ∷ cs) db = perform_all cs (perform c db)

  perform-AllTracked : (c : Call) (db : Database) → AllTracked db → AllTracked (perform c db)
  unfolding perform
  perform-AllTracked (creating store_id d input) db all =
      elim (create_shipment-cases create_hash update_hash store_id d input db) [
        | inl e ↦ rw e all
        | inr (new, e) ↦
            rw e (λ s id.
              inserted-IsTracked store_id d (create_hash input) input db s id new (all s id))
      ]
  perform-AllTracked (updating store_id d id input key) db all =
      elim (update_shipment_status-cases create_hash update_hash store_id d id input key db) [
        | inl e ↦ rw e all
        | inr (r, there, may, e) ↦ rw e (λ s i.
            updated-IsTracked store_id id d input key (update_hash input) r db s i there may
              (all s i))
      ]

  perform_all-AllTracked :
      (cs : List Call) (db : Database) → AllTracked db → AllTracked (perform_all cs db)
  unfolding perform_all
  perform_all-AllTracked [] db all = all
  perform_all-AllTracked (c ∷ cs) db all =
      perform_all-AllTracked cs (perform c db) (perform-AllTracked c db all)

  -- After any calls on empty tables, whatever they returned, the events of every shipment lead from
  -- its creation to its state by allowed moves, each from where the last one ended; it has a time of
  -- delivery exactly if it was delivered, and what is no shipment has no events.
  pub rows-AllTracked :
      (cs : List Call) → AllTracked (perform_all cs (record { shipments = []; events = [] }))
  rows-AllTracked cs = perform_all-AllTracked cs _ (λ s id. refl)
