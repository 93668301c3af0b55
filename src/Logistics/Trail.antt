-- ===== src/Logistics/Trail.antt =====
-- The events of a shipment as a path through its states
-- (services/logistics-service/src/main.ts).
use kuajing.Base.{◌≡◌, refl, true, Option, none, some, List, [], ◌∷◌, ◌++◌}
use kuajing.Logistics.Status.{Status, shipped, may_move}

-- What an event says of the state: before, if there was one, and after.
abbrev pub Move : Type 0
Move = Option Status × Status

abbrev pub IsMove : Option Status → Status → Type 0
IsMove none s = s ≡ shipped
IsMove (some r) s = may_move r s ≡ true

-- Moves that lead from one state to another, each from where the last one ended.
abbrev pub Trail : Option Status → List Move → Status → Type 0
Trail before [] after = before ≡ some after
Trail before ((from, to) ∷ moves) after =
    (from ≡ before) × IsMove before to × Trail (some to) moves after

pub Trail-append :
    (before : Option Status) (moves : List Move) (s t : Status)
    → Trail before moves s
    → may_move s t ≡ true
    → Trail before (moves ++ ((some s, t) ∷ [])) t
Trail-append before [] s t h m = rw h (refl, m, refl)
Trail-append before ((from, to) ∷ moves) s t (e, f, h) m =
    (e, f, Trail-append (some to) moves s t h m)
