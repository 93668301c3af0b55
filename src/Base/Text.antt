-- ===== src/Base/Text.antt =====
-- Texts as lists of UTF-16 code units, and the operations of JavaScript's `String` that the
-- services call on them.
use Prim.Native.Nat.{ℕ}
use Prim.Native.Char.{code}
use Prim.Native.String.{String}
use mathlib.Core.Path.{◌≡◌, refl}
use mathlib.Core.Logic.{◌↔◌, ◌≢◌}
use mathlib.Core.Bool.{Bool, true, false, ◌&&◌, ◌||◌}
use mathlib.Core.Option.{Option, none, some}
use mathlib.Core.List.{List, [], ◌∷◌, reverse}
use native.Mathlib.Omega.{arith}
use kuajing.Base.Tests.{leb, ◌==◌, if◌then◌else◌}
use kuajing.Base.Lists.{length}

abbrev pub Text : Type 0
Text = List ℕ

-- The code units of an ASCII literal.
abbrev pub codes : String → Text
codes String.[] = []
codes (String.◌∷◌ c s) = code c ∷ codes s

-- `a === b`
unfoldable pub text_eq : Text → Text → Bool
text_eq [] [] = true
text_eq [] (d ∷ t) = false
text_eq (c ∷ s) [] = false
text_eq (c ∷ s) (d ∷ t) = c == d && text_eq s t

pub text_eq_iff : (s t : Text) → (text_eq s t ≡ true) ↔ (s ≡ t)
unfolding text_eq
text_eq_iff [] [] = (λ _. refl, λ _. refl)
text_eq_iff [] (d ∷ t) = (λ e. cc, λ e. cc)
text_eq_iff (c ∷ s) [] = (λ e. cc, λ e. cc)
text_eq_iff (c ∷ s) (d ∷ t) =
    (λ e. ground (arith, text_eq_iff s t), λ e. ground (arith, text_eq_iff s t))

pub text_eq_refl : (s : Text) → text_eq s s ≡ true
text_eq_refl s = (text_eq_iff s s).1 refl

pub text_neq : (s t : Text) → text_eq s t ≡ false → s ≢ t
text_neq s t h e = cc (h, (text_eq_iff s t).1 e)

-- White space and line terminators, which `trim` removes.
unfoldable pub is_space : ℕ → Bool
is_space c =
    leb 9 c && leb c 13
    || c == 32
    || c == 160
    || c == 5760
    || leb 8192 c && leb c 8202
    || c == 8232
    || c == 8233
    || c == 8239
    || c == 8287
    || c == 12288
    || c == 65279

unfoldable pub trim_start : Text → Text
unfolding is_space
trim_start [] = []
trim_start (c ∷ t) = if is_space c then trim_start t else c ∷ t

unfoldable pub trim : Text → Text
unfolding trim_start
trim t = reverse (trim_start (reverse (trim_start t)))

-- `!text`
abbrev pub is_blank : Text → Bool
is_blank [] = true
is_blank (c ∷ t) = false

abbrev pub non_empty : Text → Option Text
non_empty [] = none
non_empty (c ∷ t) = some (c ∷ t)

-- `value?.trim() || undefined`: a missing or blank text is falsy.
unfoldable pub trimmed : Option Text → Option Text
unfolding trim
trimmed none = none
trimmed (some t) = non_empty (trim t)

-- A regular expression that is a sequence of one-character classes between `^` and `$`.
unfoldable pub matches : List (ℕ → Bool) → Text → Bool
matches [] [] = true
matches [] (c ∷ t) = false
matches (p ∷ ps) [] = false
matches (p ∷ ps) (c ∷ t) = p c && matches ps t

pub length-matches : (ps : List (ℕ → Bool)) (t : Text) → matches ps t ≡ true → length t ≡ length ps
unfolding matches
length-matches [] [] h = refl
length-matches [] (c ∷ t) h = cc
length-matches (p ∷ ps) [] h = cc
length-matches (p ∷ ps) (c ∷ t) h = ground (arith, length-matches ps t)
