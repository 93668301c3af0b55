-- ===== src/Logistics/Postgres.antt =====
-- The shipments of services/logistics-service/src/main.ts in PostgreSQL: `createShipment` and
-- `updateShipmentStatus` of `LogisticsRepository`, with the constraints of
-- infra/db/migrations/046-logistics-fulfillment.sql. One call runs at a time, and the ids drawn for
-- events are new.
pub mod Log
pub mod Tracked
use kuajing.Base.{
  ℕ, ◌≡◌, Bool, true, false, ◌&&◌, ◌||◌, not, Option, none, some, List, [], ◌∷◌, ◌++◌, map,
  if◌then◌else◌, find,
}
use kuajing.Base.Text.{Text, text_eq}
use kuajing.Base.Failure.{http, Result, ok, err, not_found, idempotency_conflict}
use kuajing.Logistics.Status.{Status, shipped, delivered, status_eq, assert_shipment_transition}
use kuajing.Logistics.Request.{CreateInput, UpdateInput}

-- A row of `shipments`.
pub record ShipmentRow : Type 0 where
  pub id : Text
  pub store_id : Text
  pub order_id : Text
  pub order_number : Text
  pub carrier_code : Text
  pub carrier_name : Text
  pub tracking_number : Text
  pub status : Status
  pub created_by : Text
  pub idempotency_key : Text
  pub request_hash : Text
  pub shipped_at : ℕ
  pub delivered_at : Option ℕ
  pub created_at : ℕ
  pub updated_at : ℕ

-- A row of `shipment_events`.
pub record EventRow : Type 0 where
  pub id : Text
  pub store_id : Text
  pub shipment_id : Text
  pub from_status : Option Status
  pub to_status : Status
  pub location : Text
  pub reason : Text
  pub actor_id : Text
  pub correlation_id : Text
  pub idempotency_key : Text
  pub request_hash : Text
  pub created_at : ℕ

pub record Database : Type 0 where
  pub shipments : List ShipmentRow
  pub events : List EventRow

-- What one call draws, and its correlation id; `now` is the time of the transaction.
pub record Drawn : Type 0 where
  pub shipment_id : Text
  pub event_id : Text
  pub now : ℕ
  pub correlation_id : Text

-- The id of the shipment that is read back, and whether the answer repeats an earlier one.
abbrev pub Answer : Type 0
Answer = Result (Text × Bool)

abbrev pub is_shipment : Text → Text → ShipmentRow → Bool
is_shipment store_id id r = text_eq r.store_id store_id && text_eq r.id id

abbrev pub is_created_by_key : Text → Text → ShipmentRow → Bool
is_created_by_key store_id key r = text_eq r.store_id store_id && text_eq r.idempotency_key key

abbrev pub is_event_key : Text → Text → EventRow → Bool
is_event_key store_id key e = text_eq e.store_id store_id && text_eq e.idempotency_key key

abbrev pub is_some {ℓ} : {A : Type ℓ} → Option A → Bool
is_some none = false
is_some (some x) = true

-- The primary key, and UNIQUE (store_id, carrier_code, tracking_number).
abbrev pub same_parcel : Text → Text → CreateInput → ShipmentRow → Bool
same_parcel store_id id input r =
    text_eq r.id id
    || text_eq r.store_id store_id
      && text_eq r.carrier_code input.carrier_code
      && text_eq r.tracking_number input.tracking_number

-- Whether the two INSERTs of `createShipment` violate a constraint, error 23505.
abbrev pub is_taken : Text → Drawn → CreateInput → Database → Bool
is_taken store_id d input db =
    is_some (find (same_parcel store_id d.shipment_id input) db.shipments)
    || is_some (find (is_event_key store_id input.idempotency_key) db.events)

abbrev pub new_row : Text → Drawn → Text → CreateInput → ShipmentRow
new_row store_id d hash input = record {
  id = d.shipment_id;
  store_id = store_id;
  order_id = input.order_id;
  order_number = input.order_number;
  carrier_code = input.carrier_code;
  carrier_name = input.carrier_name;
  tracking_number = input.tracking_number;
  status = shipped;
  created_by = input.actor_id;
  idempotency_key = input.idempotency_key;
  request_hash = hash;
  shipped_at = d.now;
  delivered_at = none;
  created_at = d.now;
  updated_at = d.now;
}

abbrev pub first_event : Text → Drawn → Text → CreateInput → EventRow
first_event store_id d hash input = record {
  id = d.event_id;
  store_id = store_id;
  shipment_id = d.shipment_id;
  from_status = none;
  to_status = shipped;
  location = [];
  reason = input.reason;
  actor_id = input.actor_id;
  correlation_id = d.correlation_id;
  idempotency_key = input.idempotency_key;
  request_hash = hash;
  created_at = d.now;
}

abbrev pub next_event : Text → Text → Drawn → Text → Text → UpdateInput → Status → EventRow
next_event store_id shipment_id d key hash input current = record {
  id = d.event_id;
  store_id = store_id;
  shipment_id = shipment_id;
  from_status = some current;
  to_status = input.status;
  location = input.location;
  reason = input.reason;
  actor_id = input.actor_id;
  correlation_id = d.correlation_id;
  idempotency_key = key;
  request_hash = hash;
  created_at = d.now;
}

-- `COALESCE(delivered_at, now())`
abbrev pub first_time : Option ℕ → ℕ → Option ℕ
first_time none now = some now
first_time (some t) now = some t

-- `UPDATE shipments SET status = $3, …`
abbrev pub moved : Status → ℕ → ShipmentRow → ShipmentRow
moved status now r = record r {
  status = status;
  updated_at = now;
  delivered_at =
      if status_eq status delivered then first_time r.delivered_at now else r.delivered_at;
}

abbrev pub update_row : Text → Text → Status → ℕ → ShipmentRow → ShipmentRow
update_row store_id id status now r = if is_shipment store_id id r then moved status now r else r

-- `shipmentRequestHash` and `shipmentStatusRequestHash`: digests of the requests.
module _ (create_hash : CreateInput → Text) (update_hash : UpdateInput → Text) where
  -- An earlier request under the key.
  abbrev pub replayed : CreateInput → ShipmentRow → Answer
  replayed input r =
      if text_eq r.request_hash (create_hash input)
      then ok (r.id, true)
      else err (http idempotency_conflict)

  -- A violation rolls back, and the key is looked up once more.
  abbrev pub after_violation : Text → CreateInput → Database → Answer × Database
  after_violation store_id input db =
      elim (find (is_created_by_key store_id input.idempotency_key) db.shipments) [
        | some r ↦ (replayed input r, db)
        | none ↦ (err (http idempotency_conflict), db)
      ]

  -- `createShipment`
  unfoldable pub create_shipment : Text → Drawn → CreateInput → Database → Answer × Database
  create_shipment store_id d input db =
      let inserted = record db {
        shipments = db.shipments ++ (new_row store_id d (create_hash input) input ∷ []);
        events = db.events ++ (first_event store_id d (create_hash input) input ∷ []);
      } in
      elim (find (is_created_by_key store_id input.idempotency_key) db.shipments) [
        | some r ↦ (replayed input r, db)
        | none ↦
            if is_taken store_id d input db
            then after_violation store_id input db
            else (ok (d.shipment_id, false), inserted)
      ]

  -- `updateShipmentStatus`, once the shipment is found and the key is new, so that the INSERT
  -- violates no constraint.
  unfoldable pub move_shipment :
      Text → Drawn → Text → UpdateInput → Text → ShipmentRow → Database → Answer × Database
  move_shipment store_id d shipment_id input key r db =
      elim (assert_shipment_transition r.status input.status) [
        | err e ↦ (err e, db)
        | ok _ ↦ (
          ok (shipment_id, false),
          record db {
            shipments = map (update_row store_id shipment_id input.status d.now) db.shipments;
            events =
                db.events
                ++ (next_event store_id shipment_id d key (update_hash input) input r.status ∷ []);
          },
        )
      ]

  -- `updateShipmentStatus`
  unfoldable pub update_shipment_status :
      Text → Drawn → Text → UpdateInput → Text → Database → Answer × Database
  update_shipment_status store_id d shipment_id input key db =
      elim (find (is_event_key store_id key) db.events) [
        | some e ↦
            if not (text_eq e.request_hash (update_hash input))
              || not (text_eq e.shipment_id shipment_id)
            then (err (http idempotency_conflict), db)
            else (ok (shipment_id, true), db)
        | none ↦ elim (find (is_shipment store_id shipment_id) db.shipments) [
          | none ↦ (err (http not_found), db)
          | some r ↦ move_shipment store_id d shipment_id input key r db
        ]
      ]
