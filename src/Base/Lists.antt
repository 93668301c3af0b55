-- ===== src/Base/Lists.antt =====
-- Lists measured by native numbers, under the library's names, and searches through them.
use Prim.Native.Nat.{ℕ, zero, suc, ◌+◌}
use mathlib.Core.Path.{◌≡◌, refl}
use mathlib.Core.Bool.{Bool, true, false}
use mathlib.Core.List.{List, [], ◌∷◌, ◌++◌, map}
use mathlib.Core.Option.{Option, none, some}
use native.Mathlib.Omega.{arith}

module _ {ℓ} {A : Type ℓ} where
  abbrev pub length : List A → ℕ
  length [] = 0
  length (x ∷ xs) = suc (length xs)

  abbrev pub take : ℕ → List A → List A
  take zero xs = []
  take (suc n) [] = []
  take (suc n) (x ∷ xs) = x ∷ take n xs

  -- `xs.find(p)`
  abbrev pub find : (A → Bool) → List A → Option A
  find p [] = none
  find p (x ∷ xs) = elim (p x) [ true ↦ some x | false ↦ find p xs ]

  -- A predicate at every item.
  abbrev pub All {κ} : (A → Type κ) → List A → Type κ
  All P [] = Unit
  All P (x ∷ xs) = P x × All P xs

module _ {ℓ} {A : Type ℓ} where
  pub length-append : (xs ys : List A) → length (xs ++ ys) ≡ length xs + length ys
  length-append [] ys = omega arith
  length-append (x ∷ xs) ys = omega (arith, length-append xs ys)

  -- The item that is put at the end is found, if no other is.
  pub find-append :
      (p : A → Bool) (xs : List A) (x : A)
      → find p xs ≡ none
      → p x ≡ true
      → find p (xs ++ (x ∷ [])) ≡ some x
  find-append p [] x h e = rw e refl
  find-append p (y ∷ xs) x h e = ground (arith, find-append p xs x)

  -- What is found at the end, if nothing is found before.
  pub find-append_cases :
      (p : A → Bool) (xs : List A) (x : A)
      → find p (xs ++ (x ∷ []))
        ≡ elim (find p xs) [ some y ↦ some y | none ↦ elim (p x) [ true ↦ some x | false ↦ none ] ]
  find-append_cases p [] x = ground arith
  find-append_cases p (y ∷ xs) x = ground (arith, find-append_cases p xs x)

  -- A map that leaves the test as it is maps what is found.
  pub find-map :
      (p : A → Bool) (f : A → A) (xs : List A)
      → ((x : A) → p (f x) ≡ p x)
      → find p (map f xs) ≡ elim (find p xs) [ some y ↦ some (f y) | none ↦ none ]
  find-map p f [] same = refl
  find-map p f (x ∷ xs) same = ground (arith, same x, find-map p f xs same)

  -- What is found passes the test.
  pub find_passes : (p : A → Bool) (xs : List A) (x : A) → find p xs ≡ some x → p x ≡ true
  find_passes p [] x e = cc
  find_passes p (y ∷ xs) x e = ground (arith, find_passes p xs x)
