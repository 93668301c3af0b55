-- ===== src/Logistics/Status.antt =====
-- The states of a shipment (services/logistics-service/src/fulfillment.ts).
use kuajing.Base.{Bool, true, false, ◌||◌, ◌≡◌, ◌⊎◌, refl, ◌↔◌, List, [], ◌∷◌, arith, if◌then◌else◌}
use kuajing.Base.Failure.{http, Result, ok, err, conflict}

-- `shipmentStatuses`
pub data Status : Type 0 where
  shipped in_transit customs out_for_delivery delivered exception : Status

abbrev pub status_eq : Status → Status → Bool
status_eq shipped shipped = true
status_eq in_transit in_transit = true
status_eq customs customs = true
status_eq out_for_delivery out_for_delivery = true
status_eq delivered delivered = true
status_eq exception exception = true
status_eq _ _ = false

-- `allowedTransitions`
abbrev pub allowed_transitions : Status → List Status
allowed_transitions shipped = in_transit ∷ customs ∷ out_for_delivery ∷ delivered ∷ exception ∷ []
allowed_transitions in_transit = customs ∷ out_for_delivery ∷ delivered ∷ exception ∷ []
allowed_transitions customs = in_transit ∷ out_for_delivery ∷ delivered ∷ exception ∷ []
allowed_transitions out_for_delivery = delivered ∷ exception ∷ []
allowed_transitions delivered = []
allowed_transitions exception = in_transit ∷ customs ∷ out_for_delivery ∷ delivered ∷ []

-- `statuses.includes(s)`
abbrev pub includes : List Status → Status → Bool
includes [] s = false
includes (t ∷ ts) s = status_eq t s || includes ts s

abbrev pub may_move : Status → Status → Bool
may_move current next = status_eq current next || includes (allowed_transitions current) next

-- `assertShipmentTransition`
unfoldable pub assert_shipment_transition : Status → Status → Result (Unit {0})
assert_shipment_transition current next =
    if status_eq current next
    then ok tt
    else if includes (allowed_transitions current) next
    then ok tt
    else err (http conflict)

-- A parcel that is out with the courier does not go back into transit or to the customs, except by
-- way of an exception.
abbrev pub Advances : Status → Status → Type 0
Advances shipped next = Unit
Advances delivered next = next ≡ delivered
Advances out_for_delivery next = (next ≡ out_for_delivery) ⊎ (next ≡ delivered) ⊎ (next ≡ exception)
Advances current next =
    (next ≡ in_transit)
    ⊎ (next ≡ customs)
    ⊎ (next ≡ out_for_delivery)
    ⊎ (next ≡ delivered)
    ⊎ (next ≡ exception)

pub assert_shipment_transition-may_move :
    (current next : Status)
    → assert_shipment_transition current next ≡ ok tt
    → may_move current next ≡ true
unfolding assert_shipment_transition
assert_shipment_transition-may_move current next h = ground arith

passes :
    (current next : Status)
    → assert_shipment_transition current next ≡ ok tt
    → Advances current next
unfolding assert_shipment_transition
passes shipped next h = tt
passes in_transit next h = ground arith
passes customs next h = ground arith
passes out_for_delivery next h = ground arith
passes delivered next h = ground arith
passes exception next h = ground arith

advances :
    (current next : Status)
    → Advances current next
    → assert_shipment_transition current next ≡ ok tt
unfolding assert_shipment_transition
advances shipped shipped h = refl
advances shipped in_transit h = refl
advances shipped customs h = refl
advances shipped out_for_delivery h = refl
advances shipped delivered h = refl
advances shipped exception h = refl
advances in_transit next h = ground arith
advances customs next h = ground arith
advances out_for_delivery next h = ground arith
advances delivered next h = ground arith
advances exception next h = ground arith

-- A shipment may move exactly as a parcel does: from the start anywhere, never back to the start,
-- from the courier only to the buyer or into an exception, and from the buyer nowhere.
pub assert_shipment_transition_iff :
    (current next : Status)
    → (assert_shipment_transition current next ≡ ok tt) ↔ Advances current next
assert_shipment_transition_iff current next = (passes current next, advances current next)
