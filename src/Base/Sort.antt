-- ===== src/Base/Sort.antt =====
-- Selecting and ordering the rows of a table: WHERE, ORDER BY and LIMIT.
use Prim.Native.Nat.{ℕ, zero, suc, ◌≤◌}
use mathlib.Core.Path.{◌≡◌}
use mathlib.Core.Logic.{inl, inr}
use mathlib.Core.Bool.{Bool, true}
use mathlib.Core.List.{List, [], ◌∷◌}
use native.Mathlib.Omega.{arith}
use kuajing.Base.Tests.{leb, if◌then◌else◌, Bool-cases}
use kuajing.Base.Lists.{All, take, length}

module _ {ℓ} {A : Type ℓ} where
  unfoldable pub pick : (A → Bool) → List A → List A
  pick p [] = []
  pick p (x ∷ xs) = let rest = pick p xs in if p x then x ∷ rest else rest

  unfoldable pub insert_by : (A → ℕ) → A → List A → List A
  insert_by key x [] = x ∷ []
  insert_by key x (y ∷ ys) =
      let rest = insert_by key x ys in if leb (key x) (key y) then x ∷ y ∷ ys else y ∷ rest

  -- `ORDER BY key ASC`; rows with the same key keep their order.
  unfoldable pub sort_by : (A → ℕ) → List A → List A
  sort_by key [] = []
  sort_by key (x ∷ xs) = insert_by key x (sort_by key xs)

  pub pick-All : (p : A → Bool) (xs : List A) → All (λ x. p x ≡ true) (pick p xs)
  unfolding pick
  pick-All p [] = tt
  pick-All p (x ∷ xs) = elim (Bool-cases (p x)) [
    | inl e ↦ rw e (e, pick-All p xs)
    | inr e ↦ rw e (pick-All p xs)
  ]

  pub length-take : (n : ℕ) (xs : List A) → length (take n xs) ≤ n
  length-take zero xs = omega arith
  length-take (suc n) [] = omega arith
  length-take (suc n) (x ∷ xs) = omega (arith, length-take n xs)

  module _ {κ} (P : A → Type κ) where
    insert-All : (key : A → ℕ) (x : A) (xs : List A) → P x → All P xs → All P (insert_by key x xs)
    unfolding insert_by
    insert-All key x [] p h = (p, tt)
    insert-All key x (y ∷ ys) p h = elim (Bool-cases (leb (key x) (key y))) [
      | inl e ↦ rw e (p, h)
      | inr e ↦ rw e (h.0, insert-All key x ys p h.1)
    ]

    pub sort-All : (key : A → ℕ) (xs : List A) → All P xs → All P (sort_by key xs)
    unfolding sort_by
    sort-All key [] h = tt
    sort-All key (x ∷ xs) h = insert-All key x (sort_by key xs) h.0 (sort-All key xs h.1)

    pub take-All : (n : ℕ) (xs : List A) → All P xs → All P (take n xs)
    take-All zero xs h = tt
    take-All (suc n) [] h = tt
    take-All (suc n) (x ∷ xs) h = (h.0, take-All n xs h.1)
