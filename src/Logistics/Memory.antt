-- ===== src/Logistics/Memory.antt =====
-- The shipments of services/logistics-service/src/main.ts in memory: `createShipment` and
-- `updateShipmentStatus` of `LogisticsRepository` with no database. An object in the map is reached
-- through its key only, so a write to it is a write at its key.
pub mod Tracked
use kuajing.Base.{
  ℕ, ◌≡◌, Bool, true, false, ◌&&◌, ◌||◌, not, Option, none, some, List, [], ◌∷◌, ◌++◌,
  if◌then◌else◌, find,
}
use kuajing.Base.Text.{Text, text_eq}
use kuajing.Base.Dict.{Dict, get, set, values}
use kuajing.Base.Failure.{
  http, Result, ok, err, ◌>>=◌, ◌>>◌, throw_if, not_found, idempotency_conflict,
}
use kuajing.Logistics.Status.{Status, shipped, delivered, status_eq, assert_shipment_transition}
use kuajing.Logistics.Request.{CreateInput, UpdateInput}

-- `ShipmentEvent`
pub record Event : Type 0 where
  pub event_id : Text
  pub from_status : Option Status
  pub to_status : Status
  pub location : Text
  pub reason : Text
  pub actor_id : Text
  pub correlation_id : Text
  pub created_at : ℕ

-- `Shipment`, with the key and the hash of its request.
pub record Shipment : Type 0 where
  pub shipment_id : Text
  pub order_id : Text
  pub order_number : Text
  pub carrier_code : Text
  pub carrier_name : Text
  pub tracking_number : Text
  pub status : Status
  pub created_by : Text
  pub shipped_at : ℕ
  pub delivered_at : Option ℕ
  pub created_at : ℕ
  pub updated_at : ℕ
  pub events : List Event
  pub idempotency_key : Text
  pub request_hash : Text

-- An entry of `inMemoryShipmentEventKeys`.
pub record EventKey : Type 0 where
  pub request_hash : Text
  pub shipment_id : Text

pub record Store : Type 0 where
  pub shipments : Dict Shipment
  pub event_keys : Dict EventKey

-- What one call draws, and its correlation id.
pub record Drawn : Type 0 where
  pub shipment_id : Text
  pub event_id : Text
  pub now : ℕ
  pub correlation_id : Text

-- The answer, and whether it repeats an earlier one.
abbrev pub Answer : Type 0
Answer = Result (Shipment × Bool)

abbrev pub new_shipment : Drawn → Text → CreateInput → Shipment
new_shipment d hash input = record {
  shipment_id = d.shipment_id;
  order_id = input.order_id;
  order_number = input.order_number;
  carrier_code = input.carrier_code;
  carrier_name = input.carrier_name;
  tracking_number = input.tracking_number;
  status = shipped;
  created_by = input.actor_id;
  shipped_at = d.now;
  delivered_at = none;
  created_at = d.now;
  updated_at = d.now;
  events =
      record {
        event_id = d.event_id;
        from_status = none;
        to_status = shipped;
        location = [];
        reason = input.reason;
        actor_id = input.actor_id;
        correlation_id = d.correlation_id;
        created_at = d.now;
      }
      ∷ [];
  idempotency_key = input.idempotency_key;
  request_hash = hash;
}

abbrev pub moved : Drawn → UpdateInput → Shipment → Shipment
moved d input s = record s {
  events =
      s.events
      ++ (record {
        event_id = d.event_id;
        from_status = some s.status;
        to_status = input.status;
        location = input.location;
        reason = input.reason;
        actor_id = input.actor_id;
        correlation_id = d.correlation_id;
        created_at = d.now;
      }
          ∷ []);
  status = input.status;
  updated_at = d.now;
  delivered_at = if status_eq input.status delivered then some d.now else s.delivered_at;
}

-- `shipmentRequestHash` and `shipmentStatusRequestHash`: digests of the requests.
module _ (create_hash : CreateInput → Text) (update_hash : UpdateInput → Text) where
  -- `createShipment`
  unfoldable pub create_shipment : Drawn → CreateInput → Store → Answer × Store
  create_shipment d input st =
      let made = new_shipment d (create_hash input) input in
      elim (find (λ (s : Shipment). text_eq s.idempotency_key input.idempotency_key)
        (values st.shipments)) [
          | some replay ↦
              if text_eq replay.request_hash (create_hash input)
              then (ok (replay, true), st)
              else (err (http idempotency_conflict), st)
          | none ↦ (ok (made, false), record st { shipments = set d.shipment_id made st.shipments })
        ]

  -- `updateShipmentStatus`, once the shipment is found and the key is new.
  unfoldable pub move_shipment :
      Drawn → Text → UpdateInput → Text → Shipment → Store → Answer × Store
  move_shipment d shipment_id input key s st =
      elim (assert_shipment_transition s.status input.status) [
        | err e ↦ (err e, st)
        | ok _ ↦ (
          ok (moved d input s, false),
          record st {
            shipments = set shipment_id (moved d input s) st.shipments;
            event_keys =
                set key (record { request_hash = update_hash input; shipment_id = shipment_id })
                  st.event_keys;
          },
        )
      ]

  -- `updateShipmentStatus`
  unfoldable pub update_shipment_status : Drawn → Text → UpdateInput → Text → Store → Answer × Store
  update_shipment_status d shipment_id input key st = elim (get shipment_id st.shipments) [
    | none ↦ (err (http not_found), st)
    | some s ↦ elim (get key st.event_keys) [
      | some replay ↦
          if not (text_eq replay.request_hash (update_hash input))
            || not (text_eq replay.shipment_id shipment_id)
          then (err (http idempotency_conflict), st)
          else (ok (s, true), st)
      | none ↦ move_shipment d shipment_id input key s st
    ]
  ]
