-- ===== src/Base/Decimal.antt =====
-- Natural numbers in decimal, as a template literal prints them.
use Prim.Native.Nat.{ℕ, zero, suc, ◌+◌, ◌-◌, ◌*◌, ◌/◌, ◌%◌, ◌<◌}
use mathlib.Core.Path.{◌≡◌, refl, sym, ap, ◌∙◌}
use mathlib.Core.Logic.{inl, inr}
use mathlib.Core.Bool.{false}
use mathlib.Core.List.{[], ◌∷◌, ◌++◌}
use native.Mathlib.Omega.{arith}
use kuajing.Base.Tests.{ltb, if◌then◌else◌, Bool-cases}
use kuajing.Base.Text.{Text}

-- The digits of a number, for fuel above it.
unfoldable pub digits : ℕ → ℕ → Text
digits zero n = []
digits (suc fuel) n =
    let front = digits fuel (n / 10) in
    if ltb n 10 then (48 + n) ∷ [] else front ++ ((48 + n % 10) ∷ [])

unfoldable pub show : ℕ → Text
show n = digits (suc n) n

-- The number that digits stand for, after some that were read.
read : ℕ → Text → ℕ
read n [] = n
read n (c ∷ t) = read (n * 10 + (c - 48)) t

read-append : (n : ℕ) (s t : Text) → read n (s ++ t) ≡ read (read n s) t
unfolding read
read-append n [] t = refl
read-append n (c ∷ s) t = read-append (n * 10 + (c - 48)) s t

read-digits : (fuel n : ℕ) → n < fuel → read 0 (digits fuel n) ≡ n
unfolding read digits
read-digits zero n h = absurd (omega (arith, h))
read-digits (suc fuel) n h = elim (Bool-cases (ltb n 10)) [
  | inl e ↦ rw e (omega arith)
  | inr e ↦ rw (e, read-append) (rw (read-digits fuel (n / 10) (smaller e)) (omega arith))
]
  where
    smaller : ltb n 10 ≡ false → n / 10 < fuel
    smaller e = ground arith

-- Two numbers with the same digits are one number.
pub show-injective : (m n : ℕ) → show m ≡ show n → m ≡ n
unfolding show
show-injective m n e =
    sym (read-digits (suc m) m (omega arith)) ∙ ap (read 0) e ∙ read-digits (suc n) n (omega arith)
