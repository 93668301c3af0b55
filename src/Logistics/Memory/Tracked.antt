-- ===== src/Logistics/Memory/Tracked.antt =====
-- The events and the state of the shipments in memory, over any calls
-- (services/logistics-service/src/main.ts).
use kuajing.Base.{
  ℕ, ◌≡◌, ◌⊎◌, refl, ap, subst, ◌∙◌, Bool, true, false, Option, none, some, List, [], ◌∷◌, ◌++◌,
  find, arith, inl, inr, Bool-cases, Option-cases, All,
}
use kuajing.Base.Text.{Text, text_eq, text_eq_iff}
use kuajing.Base.Dict.{Dict, get, set, values, get-set, get-set_self}
use kuajing.Base.Failure.{ok, Result-cases}
use kuajing.Logistics.Status.{
  Status, delivered, status_eq, may_move, assert_shipment_transition,
  assert_shipment_transition-may_move,
}
use kuajing.Logistics.Trail.{Move, Trail, Trail-append}
use kuajing.Logistics.Request.{CreateInput, UpdateInput}
use kuajing.Logistics.Memory.{
  Event, Shipment, Store, Drawn, new_shipment, moved, create_shipment, move_shipment,
  update_shipment_status,
}

abbrev pub move_of : Event → Move
move_of e = (e.from_status, e.to_status)

abbrev pub moves : List Event → List Move
moves [] = []
moves (e ∷ es) = move_of e ∷ moves es

moves-append : (es : List Event) (e : Event) → moves (es ++ (e ∷ [])) ≡ moves es ++ (move_of e ∷ [])
moves-append [] e = refl
moves-append (x ∷ es) e = ap (λ (ms : List Move). move_of x ∷ ms) (moves-append es e)

abbrev pub is_some : Option ℕ → Bool
is_some none = false
is_some (some n) = true

-- A shipment whose events lead from its creation to its state by allowed moves, and which has a
-- time of delivery exactly if it was delivered.
abbrev pub IsTracked : Shipment → Type 0
IsTracked s =
    Trail none (moves s.events) s.status × (is_some s.delivered_at ≡ status_eq s.status delivered)

abbrev pub AllTracked : Dict Shipment → Type 0
AllTracked m = (id : Text) (s : Shipment) → get id m ≡ some s → IsTracked s

new_shipment-IsTracked :
    (d : Drawn) (hash : Text) (input : CreateInput) → IsTracked (new_shipment d hash input)
new_shipment-IsTracked d hash input = ((refl, refl, refl), refl)

-- A delivered shipment moves nowhere else.
delivery :
    (s t : Status)
    → may_move s t ≡ true
    → status_eq t delivered ≡ false
    → status_eq s delivered ≡ false
delivery s t h e = ground arith

moved-IsTracked :
    (d : Drawn) (input : UpdateInput) (s : Shipment)
    → may_move s.status input.status ≡ true
    → IsTracked s
    → IsTracked (moved d input s)
moved-IsTracked d input s h (trail, when) = (
  rw (moves-append s.events _) (Trail-append none (moves s.events) s.status input.status trail h),
  elim (Bool-cases (status_eq input.status delivered)) [
    | inl e ↦ rw e refl
    | inr e ↦ rw e (rw (delivery s.status input.status h e) at when)
  ],
)

-- From the buyer a parcel moves nowhere.
ends : (s t : Status) → s ≡ delivered → may_move s t ≡ true → t ≡ delivered
ends s t e h = ground arith

same_status :
    (j id : Text) (st : Store) (u s : Shipment)
    → get j st.shipments ≡ some u
    → get id st.shipments ≡ some s
    → text_eq j id ≡ true
    → u.status ≡ s.status
same_status j id st u s e f h = ground (arith, text_eq_iff j id)

set-AllTracked :
    (id : Text) (s : Shipment) (m : Dict Shipment)
    → IsTracked s
    → AllTracked m
    → AllTracked (set id s m)
set-AllTracked id s m h all k u e = elim (Bool-cases (text_eq id k)) [
  | inl f ↦ subst IsTracked {x = s} {y = u} (ground (arith, get-set id k s m)) h
  | inr f ↦ all k u (ground (arith, get-set id k s m))
]

module _ (create_hash : CreateInput → Text) (update_hash : UpdateInput → Text) where
  -- What the calls write: nothing, a new shipment, or a shipment that moved as it may.
  pub create_shipment-cases :
      (d : Drawn) (input : CreateInput) (st : Store)
      → ((create_shipment create_hash update_hash d input st).1 ≡ st)
        ⊎ ((create_shipment create_hash update_hash d input st).1.shipments
            ≡ set d.shipment_id (new_shipment d (create_hash input) input) st.shipments)
  unfolding create_shipment
  create_shipment-cases d input st =
      elim (Option-cases (
        find (λ (s : Shipment). text_eq s.idempotency_key input.idempotency_key)
          (values st.shipments))) [ inl e ↦ inr (ground arith) | inr (r, e) ↦ inl (ground arith) ]

  pub update_shipment_status-cases :
      (d : Drawn) (id : Text) (input : UpdateInput) (key : Text) (st : Store)
      → ((update_shipment_status create_hash update_hash d id input key st).1 ≡ st)
        ⊎ ((s : Shipment) × (get id st.shipments ≡ some s)
            × (may_move s.status input.status ≡ true)
            × ((update_shipment_status create_hash update_hash d id input key st).1.shipments
                ≡ set id (moved d input s) st.shipments))
  unfolding update_shipment_status move_shipment
  update_shipment_status-cases d id input key st = elim (Option-cases (get id st.shipments)) [
    | inl e ↦ inl (ground arith)
    | inr (s, e) ↦ elim (Option-cases (get key st.event_keys)) [
      | inr (k, f) ↦ inl (ground arith)
      | inl f ↦ elim (Result-cases (assert_shipment_transition s.status input.status)) [
        | inr (x, g) ↦ inl (ground arith)
        | inl (u, g) ↦
            inr (s, e, assert_shipment_transition-may_move s.status input.status g, ground arith)
      ]
    ]
  ]

-- A call of the store.
pub data Call : Type 0 where
  creating : Drawn → CreateInput → Call
  updating : Drawn → Text → UpdateInput → Text → Call

module _ (create_hash : CreateInput → Text) (update_hash : UpdateInput → Text) where
  pub perform : Call → Store → Store
  perform (creating d input) st = (create_shipment create_hash update_hash d input st).1
  perform (updating d id input key) st =
      (update_shipment_status create_hash update_hash d id input key st).1

  -- The store after the calls, in their order, whatever they returned.
  pub perform_all : List Call → Store → Store
  perform_all [] st = st
  perform_all (c ∷ cs) st = perform_all cs (perform c st)

  perform-AllTracked :
      (c : Call) (st : Store) → AllTracked st.shipments → AllTracked (perform c st).shipments
  unfolding perform
  perform-AllTracked (creating d input) st all =
      elim (create_shipment-cases create_hash update_hash d input st) [
        | inl e ↦ rw e all
        | inr e ↦ rw e (
            set-AllTracked d.shipment_id _ st.shipments
              (new_shipment-IsTracked d (create_hash input) input) all)
      ]
  perform-AllTracked (updating d id input key) st all =
      elim (update_shipment_status-cases create_hash update_hash d id input key st) [
        | inl e ↦ rw e all
        | inr (s, there, may, e) ↦
            rw e (
              set-AllTracked id _ st.shipments (moved-IsTracked d input s may (all id s there)) all)
      ]

  perform_all-AllTracked :
      (cs : List Call) (st : Store)
      → AllTracked st.shipments
      → AllTracked (perform_all cs st).shipments
  unfolding perform_all
  perform_all-AllTracked [] st all = all
  perform_all-AllTracked (c ∷ cs) st all =
      perform_all-AllTracked cs (perform c st) (perform-AllTracked c st all)

  -- After any calls on an empty store, whatever they returned, the events of every shipment lead
  -- from its creation to its state by allowed moves, each from where the last one ended, and it has a
  -- time of delivery exactly if it was delivered.
  pub shipments-AllTracked :
      (cs : List Call)
      → AllTracked (perform_all cs (record { shipments = []; event_keys = [] })).shipments
  unfolding get
  shipments-AllTracked cs = perform_all-AllTracked cs _ (λ id s e. cc)

  abbrev pub Creates : Text → Call → Type 0
  Creates id (creating d input) = d.shipment_id ≡ id
  Creates id (updating d j input key) = ⊥

  abbrev pub IsDelivered : Text → Store → Type 0
  IsDelivered id st = (s : Shipment) × (get id st.shipments ≡ some s) × (s.status ≡ delivered)

  perform-IsDelivered :
      (id : Text) (c : Call) (st : Store)
      → ¬ Creates id c
      → IsDelivered id st
      → IsDelivered id (perform c st)
  unfolding perform
  perform-IsDelivered id (creating d input) st other (s, e, f) =
      elim (create_shipment-cases create_hash update_hash d input st) [
        | inl g ↦ rw g (s, e, f)
        | inr g ↦ rw g (
          s,
          ground (
            arith,
            get-set d.shipment_id id (new_shipment d (create_hash input) input) st.shipments,
            text_eq_iff d.shipment_id id,
          ),
          f,
        )
      ]
  perform-IsDelivered id (updating d j input key) st other (s, e, f) =
      elim (update_shipment_status-cases create_hash update_hash d j input key st) [
        | inl g ↦ rw g (s, e, f)
        | inr (u, there, may, g) ↦ elim (Bool-cases (text_eq j id)) [
          | inl h ↦ rw g (
            moved d input u,
            ground (arith, get-set j id (moved d input u) st.shipments),
            ends u.status input.status (same_status j id st u s there e h ∙ f) may,
          )
          | inr h ↦ rw g (s, ground (arith, get-set j id (moved d input u) st.shipments), f)
        ]
      ]

  -- A shipment that was delivered stays delivered, whatever calls come after, if no later shipment
  -- draws its id.
  pub perform_all-IsDelivered :
      (id : Text) (cs : List Call) (st : Store)
      → All (λ (c : Call). ¬ Creates id c) cs
      → IsDelivered id st
      → IsDelivered id (perform_all cs st)
  unfolding perform_all
  perform_all-IsDelivered id [] st other h = h
  perform_all-IsDelivered id (c ∷ cs) st (first, others) h =
      perform_all-IsDelivered id cs (perform c st) others (perform-IsDelivered id c st first h)

  -- In memory, a shipment that is reported delivered once more under a new key takes the time of the
  -- later report for its delivery.
  pub update_shipment_status-redelivered :
      (d : Drawn) (id : Text) (input : UpdateInput) (key : Text) (s : Shipment) (st : Store)
      → get id st.shipments ≡ some s
      → s.status ≡ delivered
      → input.status ≡ delivered
      → get key st.event_keys ≡ none
      → let (answer, st') = update_shipment_status create_hash update_hash d id input key st in
        (answer ≡ ok (moved d input s, false))
        × (get id st'.shipments ≡ some (moved d input s))
        × ((moved d input s).delivered_at ≡ some d.now)
  unfolding update_shipment_status move_shipment assert_shipment_transition
  update_shipment_status-redelivered d id input key s st there was is new =
      (ground arith, ground (arith, get-set_self id (moved d input s) st.shipments), rw is refl)
