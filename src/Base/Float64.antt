-- ===== src/Base/Float64.antt =====
-- Go's `float64`: NaN, the infinities, and the finite values, each a sign and a number of units of
-- 2 ^ -1074, the smallest positive double, of which every finite double is a multiple. So `fin`
-- holds all finite doubles, both zeros among them, and the comparisons are the exact ones.
pub mod Rounding
pub mod Arithmetic
pub mod Bounds
pub mod Range
pub mod Sign
use Prim.Native.Nat.{ℕ, ◌+◌, ◌*◌, ◌^◌}
use mathlib.Core.Path.{◌≡◌, refl}
use mathlib.Core.Bool.{Bool, true, false, ◌||◌, ◌&&◌}
use native.Mathlib.Omega.{arith}
use judgekit.Base.Tests.{ltb, eqb}

pub data Float64 : Type 0 where
  nan : Float64
  inf : (negative : Bool) → Float64
  fin : (negative : Bool) (units : ℕ) → Float64

abbrev pub is_nan : Float64 → Bool
is_nan nan = true
is_nan _ = false

-- `math.IsInf(x, 0)`
abbrev pub is_inf : Float64 → Bool
is_inf (inf s) = true
is_inf _ = false

lt_signed : Bool → Bool → ℕ → ℕ → Bool
lt_signed false false m n = ltb m n
lt_signed true true m n = ltb n m
lt_signed true false m n = ltb 0 (m + n)
lt_signed false true m n = false

-- `x < y`: never with NaN, and -0 is not below 0.
unfoldable pub lt_float : Float64 → Float64 → Bool
unfolding lt_signed
lt_float (fin s m) (fin t n) = lt_signed s t m n
lt_float (fin s m) (inf false) = true
lt_float (inf true) (fin t n) = true
lt_float (inf true) (inf false) = true
lt_float _ _ = false

eq_signed : Bool → Bool → ℕ → ℕ → Bool
eq_signed false false m n = eqb m n
eq_signed true true m n = eqb m n
eq_signed _ _ m n = eqb (m + n) 0

-- `x == y`: never with NaN, and -0 equals 0.
unfoldable pub eq_float : Float64 → Float64 → Bool
unfolding eq_signed
eq_float (fin s m) (fin t n) = eq_signed s t m n
eq_float (inf true) (inf true) = true
eq_float (inf false) (inf false) = true
eq_float _ _ = false

abbrev pub le_float : Float64 → Float64 → Bool
le_float x y = lt_float x y || eq_float x y

-- `n` as a `float64`, exact for `n` up to 2 ^ 53.
unfoldable pub of_small : ℕ → Float64
of_small n = fin false (n * 2 ^ 1074)

-- `math.IsNaN(x) || math.IsInf(x, 0) || x < lo || x > hi`
unfoldable pub outside : (lo hi : ℕ) → Float64 → Bool
unfolding of_small
outside lo hi x = is_nan x || (is_inf x || (lt_float x (of_small lo) || lt_float (of_small hi) x))
