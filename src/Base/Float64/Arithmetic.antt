-- ===== src/Base/Float64/Arithmetic.antt =====
-- Go's arithmetic on `float64`: the exact result, rounded to the nearest double. Each operation
-- rounds on its own, as on machines where the compiler does not fuse a product and a sum.
use judgekit.Base.Tests.{ltb, eqb, if◌then◌else◌}
use Prim.Native.Nat.{ℕ, ◌+◌, ◌-◌, ◌*◌, ◌/◌, ◌^◌}
use mathlib.Core.Bool.{Bool, true, false, not}
use judgekit.Base.Float64.{Float64, nan, inf, fin}
use judgekit.Base.Float64.Rounding.{rounded}

abbrev pub same : Bool → Bool → Bool
same true b = b
same false b = not b

-- The sign of a product or a quotient.
abbrev differ : Bool → Bool → Bool
differ a b = not (same a b)

abbrev pub negate : Float64 → Float64
negate nan = nan
negate (inf s) = inf (not s)
negate (fin s m) = fin (not s) m

-- `math.Abs(x)`
abbrev pub abs : Float64 → Float64
abs nan = nan
abs (inf s) = inf false
abs (fin s m) = fin false m

-- An exact sum that is 0 is -0 only if both terms are.
unfoldable pub add_signed : Bool → Bool → ℕ → ℕ → Float64
unfolding rounded
add_signed s t m n =
    if same s t
    then rounded s (m + n) 1
    else if ltb n m
    then rounded s (m - n) 1
    else if ltb m n
    then rounded t (n - m) 1
    else fin false 0

-- `x + y`
unfoldable pub add : Float64 → Float64 → Float64
unfolding add_signed
add nan y = nan
add (inf s) nan = nan
add (inf s) (inf t) = if same s t then inf s else nan
add (inf s) (fin t n) = inf s
add (fin s m) nan = nan
add (fin s m) (inf t) = inf t
add (fin s m) (fin t n) = add_signed s t m n

-- `x - y`
abbrev pub sub : Float64 → Float64 → Float64
sub x y = add x (negate y)

-- `x * y`
unfoldable pub mul : Float64 → Float64 → Float64
unfolding rounded
mul nan y = nan
mul (inf s) nan = nan
mul (inf s) (inf t) = inf (differ s t)
mul (inf s) (fin t n) = if eqb n 0 then nan else inf (differ s t)
mul (fin s m) nan = nan
mul (fin s m) (inf t) = if eqb m 0 then nan else inf (differ s t)
mul (fin s m) (fin t n) = rounded (differ s t) (m * n) (2 ^ 1074)

-- `x / y`
unfoldable pub div : Float64 → Float64 → Float64
unfolding rounded
div nan y = nan
div (inf s) nan = nan
div (inf s) (inf t) = nan
div (inf s) (fin t n) = inf (differ s t)
div (fin s m) nan = nan
div (fin s m) (inf t) = fin (differ s t) 0
div (fin s m) (fin t n) =
    if eqb n 0
    then (if eqb m 0 then nan else inf (differ s t))
    else rounded (differ s t) (m * 2 ^ 1074) n

-- `int(x)` for a value from 0 up to the largest `int`: the fraction is dropped.
unfoldable pub truncate : Float64 → ℕ
truncate (fin false m) = m / 2 ^ 1074
truncate _ = 0
