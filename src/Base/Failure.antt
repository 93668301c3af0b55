-- ===== src/Base/Failure.antt =====
-- What a handler returns or throws: an HTTP exception with one of the shared error codes, or any
-- other error, such as a failed database call.
use mathlib.Core.Path.{◌≡◌, refl, ap, subst}
use mathlib.Core.Logic.{◌⊎◌, inl, inr}
use mathlib.Core.Bool.{Bool, true, false}

-- The codes of packages/error-codes that the modelled services throw.
pub data ErrorCode : Type 0 where
  validation_failed not_found conflict idempotency_conflict : ErrorCode
  inventory_shortage dependency_unavailable : ErrorCode

pub data Failure : Type 0 where
  http : ErrorCode → Failure
  thrown : Failure

pub data Result {ℓ} (A : Type ℓ) : Type ℓ where
  ok : A → Result A
  err : Failure → Result A

infixl 5 ◌>>◌ ◌>>=◌
-- What follows an answer; a failure stops the handler.
abbrev pub ◌>>=◌ {ℓ κ} : {X : Type ℓ} {Y : Type κ} → Result X → (X → Result Y) → Result Y
◌>>=◌ done next = elim done [ err failure ↦ err failure | ok x ↦ next x ]

pub ok-injective : {X : Type 0} {x y : X} → ok x ≡ ok y → x ≡ y
ok-injective {x} e = ap (λ r. elim r [ ok z ↦ z | err failure ↦ x ]) e

-- A handler returns only what its last step returns.
pub bind_ok :
    {X Y : Type 0} (m : Result X) (f : X → Result Y) {y : Y}
    → m >>= f ≡ ok y
    → (x : X) × (m ≡ ok x) × (f x ≡ ok y)
bind_ok (ok x) f e = (x, refl, e)
bind_ok (err failure) f e = cc

-- What follows a check.
abbrev pub ◌>>◌ {κ} : {Y : Type κ} → Result (Unit {0}) → Result Y → Result Y
◌>>◌ check next = elim check [ err failure ↦ err failure | ok _ ↦ next ]

pub Result-cases :
    {A : Type 0} (r : Result A) → ((a : A) × (r ≡ ok a)) ⊎ ((e : Failure) × (r ≡ err e))
Result-cases (ok a) = inl (a, refl)
Result-cases (err e) = inr (e, refl)

-- `if (bad) throw e;`
abbrev pub throw_if : Bool → Failure → Result (Unit {0})
throw_if true e = err e
throw_if false e = ok tt

pub throw_if_passed :
    {Y : Type 0} (bad : Bool) (e : Failure) (next : Result Y) {y : Y}
    → throw_if bad e >> next ≡ ok y
    → (bad ≡ false) × (next ≡ ok y)
throw_if_passed true e next h = cc
throw_if_passed false e next h = (refl, h)

-- COMMIT, or ROLLBACK to the state before BEGIN.
abbrev pub committed {ℓ} : {D : Type 0} {A : Type ℓ} → Result (A × D) → D → Result A × D
committed (ok (a, db')) db = (ok a, db')
committed (err e) db = (err e, db)

-- What holds of an answer and the state that comes with it holds after the COMMIT.
pub committed_ok :
    {A D : Type 0} (P : A → D → Type 0) (r : Result (A × D)) (db : D) {a : A}
    → ((p : A × D) → r ≡ ok p → P p.0 p.1)
    → (committed r db).0 ≡ ok a
    → P a (committed r db).1
committed_ok P (ok p) db each h = subst (λ x. P x p.1) (ok-injective h) (each p refl)
committed_ok P (err e) db each h = cc

-- BEGIN, the handler, COMMIT; an error rolls every write back.
abbrev pub with_transaction {ℓ} :
    {D : Type 0} {A : Type ℓ} → (D → Result (A × D)) → D → Result A × D
with_transaction handler db = committed (handler db) db
