-- ===== src/Base/Dict.antt =====
-- JavaScript's `Map` with text keys: entries in insertion order, a write to a key that is there
-- keeps its place.
use mathlib.Core.Path.{◌≡◌, refl}
use mathlib.Core.Option.{Option, none, some}
use mathlib.Core.Bool.{Bool}
use mathlib.Core.List.{List, [], ◌∷◌}
use native.Mathlib.Omega.{arith}
use mathlib.Core.Logic.{inl, inr}
use kuajing.Base.Lists.{find}
use kuajing.Base.Tests.{if◌then◌else◌, Bool-cases}
use kuajing.Base.Text.{Text, text_eq, text_eq_iff, text_eq_refl}

abbrev pub Dict {ℓ} : Type ℓ → Type ℓ
Dict V = List (Text × V)

module _ {ℓ} {V : Type ℓ} where
  -- `m.get(k)`
  unfoldable pub get : Text → Dict V → Option V
  get k [] = none
  get k ((j, v) ∷ m) = if text_eq j k then some v else get k m

  -- `m.set(k, v)`
  unfoldable pub set : Text → V → Dict V → Dict V
  set k v [] = (k, v) ∷ []
  set k v ((j, w) ∷ m) = if text_eq j k then (j, v) ∷ m else (j, w) ∷ set k v m

  -- `[...m.values()]`
  abbrev pub values : Dict V → List V
  values [] = []
  values ((j, v) ∷ m) = v ∷ values m

  pub get-set :
      (k j : Text) (v : V) (m : Dict V)
      → get j (set k v m) ≡ (if text_eq k j then some v else get j m)
  unfolding get set
  get-set k j v [] = refl
  get-set k j v ((i, w) ∷ m) =
      ground (arith, text_eq_iff k j, text_eq_iff i k, text_eq_iff i j, get-set k j v m)

  pub get-set_self : (k : Text) (v : V) (m : Dict V) → get k (set k v m) ≡ some v
  get-set_self k v m = simp (get-set, text_eq_refl)

-- No key twice: what makes an association list the entries of a `Map`.
abbrev pub IsKeyed {ℓ} : {V : Type ℓ} → Dict V → Type ℓ
IsKeyed [] = Unit
IsKeyed ((k, v) ∷ m) = (get k m ≡ none) × IsKeyed m

module _ {ℓ} {V : Type ℓ} where
  pub set-IsKeyed : (k : Text) (v : V) (m : Dict V) → IsKeyed m → IsKeyed (set k v m)
  unfolding get set
  set-IsKeyed k v [] h = (refl, tt)
  set-IsKeyed k v ((j, w) ∷ m) h = elim (Bool-cases (text_eq j k)) [
    | inl e ↦ rw e h
    | inr e ↦
        rw e
          (ground (arith, get-set k j v m, text_eq_iff k j, text_eq_iff j k), set-IsKeyed k v m h.1)
  ]

  -- An entry that a search through `m.entries()` finds is the one at its key.
  pub get-find :
      (p : Text × V → Bool) (k : Text) (v : V) (m : Dict V)
      → IsKeyed m
      → find p m ≡ some (k, v)
      → get k m ≡ some v
  unfolding get
  get-find p k v [] h e = cc
  get-find p k v ((j, w) ∷ m) h e = elim (Bool-cases (p (j, w))) [
    | inl t ↦ ground (arith, text_eq_iff j k)
    | inr t ↦ ground (arith, text_eq_iff j k, get-find p k v m h.1)
  ]
