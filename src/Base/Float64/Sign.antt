-- ===== src/Base/Float64/Sign.antt =====
-- Floats that are not below 0: NaN, the positive infinity and the values without a minus sign.
use Prim.Native.Nat.{ℕ, ◌+◌, ◌*◌, ◌^◌}
use mathlib.Core.Path.{◌≡◌, refl}
use mathlib.Core.Bool.{true, false}
use mathlib.Core.Logic.{inl, inr}
use native.Mathlib.Omega.{arith}
use judgekit.Base.Tests.{ltb, eqb, Bool-cases}
use judgekit.Base.Float64.{Float64, nan, inf, fin, of_small, lt_float}
use judgekit.Base.Float64.Rounding.{round_units, rounded}
use judgekit.Base.Float64.Arithmetic.{add, add_signed, div, abs}

abbrev pub IsUnsigned : Float64 → Type 0
IsUnsigned nan = Unit
IsUnsigned (inf false) = Unit
IsUnsigned (inf true) = ⊥
IsUnsigned (fin false u) = Unit
IsUnsigned (fin true u) = ⊥

pub IsUnsigned-lt_float : (x : Float64) → IsUnsigned x → lt_float x (of_small 0) ≡ false
unfolding lt_float of_small
IsUnsigned-lt_float nan h = refl
IsUnsigned-lt_float (inf false) h = refl
IsUnsigned-lt_float (inf true) h = absurd h
IsUnsigned-lt_float (fin false u) h = ground arith
IsUnsigned-lt_float (fin true u) h = absurd h

pub abs-IsUnsigned : (x : Float64) → IsUnsigned (abs x)
abs-IsUnsigned nan = tt
abs-IsUnsigned (inf s) = tt
abs-IsUnsigned (fin s u) = tt

rounded-IsUnsigned : (p q : ℕ) → IsUnsigned (rounded false p q)
unfolding rounded
rounded-IsUnsigned p q = elim (Bool-cases (ltb (round_units p q) (2 ^ 2098))) [
  | inl e ↦ rw e tt
  | inr e ↦ rw e tt
]

pub add-IsUnsigned : (x y : Float64) → IsUnsigned x → IsUnsigned y → IsUnsigned (add x y)
unfolding add add_signed
add-IsUnsigned nan y h k = tt
add-IsUnsigned (inf true) y h k = absurd h
add-IsUnsigned (inf false) nan h k = tt
add-IsUnsigned (inf false) (inf false) h k = tt
add-IsUnsigned (inf false) (inf true) h k = absurd k
add-IsUnsigned (inf false) (fin t n) h k = tt
add-IsUnsigned (fin true m) y h k = absurd h
add-IsUnsigned (fin false m) nan h k = tt
add-IsUnsigned (fin false m) (inf false) h k = tt
add-IsUnsigned (fin false m) (inf true) h k = absurd k
add-IsUnsigned (fin false m) (fin true n) h k = absurd k
add-IsUnsigned (fin false m) (fin false n) h k = rounded-IsUnsigned (m + n) 1

pub div-IsUnsigned : (x : Float64) (n : ℕ) → IsUnsigned x → IsUnsigned (div x (of_small n))
unfolding div of_small
div-IsUnsigned nan n h = tt
div-IsUnsigned (inf true) n h = absurd h
div-IsUnsigned (inf false) n h = tt
div-IsUnsigned (fin true m) n h = absurd h
div-IsUnsigned (fin false m) n h = elim (Bool-cases (eqb (n * 2 ^ 1074) 0)) [
  | inl zero ↦ rw zero (elim (Bool-cases (eqb m 0)) [ inl e ↦ rw e tt | inr e ↦ rw e tt ])
  | inr nonzero ↦ rw nonzero (rounded-IsUnsigned (m * 2 ^ 1074) (n * 2 ^ 1074))
]
