-- ===== src/Logistics/Tests.antt =====
-- Runs of the two storages of shipments (services/logistics-service/src/main.ts).
use kuajing.Base.{ℕ, ◌≡◌, refl, none, some, List, [], ◌∷◌}
use kuajing.Base.Text.{Text, codes, text_eq, trim, trim_start, trimmed, is_space, matches}
use kuajing.Base.Dict.{get, set}
use kuajing.Base.Failure.{ok}
use kuajing.Logistics.Status.{delivered, assert_shipment_transition}
use kuajing.Logistics.Request.{
  CreateRequest, CreateInput, UpdateInput, required_text, normalize_numbers,
  normalize_create_shipment,
}
use kuajing.Logistics.Memory.{
  Shipment, Store, Drawn, new_shipment, moved, create_shipment, update_shipment_status,
  move_shipment,
}
use kuajing.Logistics.Memory.Tracked.{
  Call, creating, updating, perform_all, IsDelivered, perform_all-IsDelivered,
}
use kuajing.Logistics.Postgres
use kuajing.Logistics.Postgres.Log
use kuajing.Logistics.Postgres.Tracked

abbrev order_id : Text
order_id = codes "00000000-0000-4000-8000-000000002001"

abbrev request : CreateRequest
request = record {
  order_id = some order_id;
  order_number = some (codes "N1");
  carrier_code = some (codes "SF");
  carrier_name = some (codes "SF Express");
  tracking_number = some (codes "SF 123456");
  actor_id = some (codes "admin");
  idempotency_key = some (codes "k1");
  reason = some (codes "packed");
}

abbrev input : CreateInput
input = record {
  order_id = order_id;
  order_number = codes "N1";
  carrier_code = codes "SF";
  carrier_name = codes "SF Express";
  tracking_number = codes "SF123456";
  actor_id = codes "admin";
  idempotency_key = codes "k1";
  reason = codes "packed";
}

abbrev same_case : Text → Text
same_case t = t

passes : normalize_create_shipment same_case same_case request ≡ ok input
unfolding normalize_create_shipment normalize_numbers required_text trimmed trim trim_start is_space
    matches
passes = refl

-- Digests that tell requests apart by one text.
abbrev create_hash : CreateInput → Text
create_hash i = i.tracking_number

abbrev update_hash : UpdateInput → Text
update_hash i = i.reason

abbrev drawn : ℕ → Drawn
drawn now = record {
  shipment_id = codes "p1";
  event_id = codes "e1";
  now = now;
  correlation_id = codes "c";
}

abbrev arrival : UpdateInput
arrival = record {
  status = delivered;
  reason = codes "signed";
  location = [];
  actor_id = codes "admin";
}

abbrev empty : Store
empty = record { shipments = []; event_keys = [] }

abbrev calls : List Call
calls = creating (drawn 1) input ∷ updating (drawn 2) (codes "p1") arrival (codes "k2") ∷ []

abbrev sent : Store
sent = (create_shipment create_hash update_hash (drawn 1) input empty).1

abbrev arrived : Store
arrived =
    (update_shipment_status create_hash update_hash (drawn 2) (codes "p1") arrival (codes "k2")
      sent).1

abbrev parcel : Shipment
parcel = moved (drawn 2) arrival (new_shipment (drawn 1) (create_hash input) input)

arrives : get (codes "p1") arrived.shipments ≡ some parcel
unfolding get set text_eq create_shipment update_shipment_status move_shipment
    assert_shipment_transition
arrives = refl

new_key : get (codes "k3") arrived.event_keys ≡ none
unfolding get set text_eq create_shipment update_shipment_status move_shipment
    assert_shipment_transition
new_key = refl

perform_all-IsDelivered_example : IsDelivered create_hash update_hash (codes "p1") (
    perform_all create_hash update_hash
      (updating (drawn 3) (codes "p1") arrival (codes "k3") ∷ [])
      arrived)
perform_all-IsDelivered_example =
    perform_all-IsDelivered create_hash update_hash (codes "p1")
      (updating (drawn 3) (codes "p1") arrival (codes "k3") ∷ []) arrived (λ e. e, tt)
      (parcel, arrives, refl)

abbrev row_drawn : Postgres.Drawn
row_drawn = record {
  shipment_id = codes "p1";
  event_id = codes "e1";
  now = 1;
  correlation_id = codes "c";
}

abbrev row_calls : List Postgres.Tracked.Call
row_calls =
    Postgres.Tracked.creating (codes "st") row_drawn input
    ∷ Postgres.Tracked.updating (codes "st") row_drawn (codes "p1") arrival (codes "k2")
    ∷ []

rows-AllTracked_example : Postgres.Log.AllTracked (
    Postgres.Tracked.perform_all create_hash update_hash row_calls
      (record { shipments = []; events = [] }))
rows-AllTracked_example = Postgres.Tracked.rows-AllTracked create_hash update_hash row_calls
