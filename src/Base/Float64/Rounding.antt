-- ===== src/Base/Float64/Rounding.antt =====
-- Rounding to `float64`: an exact quotient of units goes to the nearest double, ties to the even
-- one, and to infinity above the largest.
use Prim.Native.Nat.{ℕ, ◌+◌, ◌-◌, ◌*◌, ◌/◌, ◌%◌, ◌^◌}
use mathlib.Core.Bool.{Bool, true, false, ◌||◌, ◌&&◌}
use mathlib.Core.List.{List, [], ◌∷◌}
use judgekit.Base.Tests.{ltb, leb, eqb, if◌then◌else◌}
use judgekit.Base.Float64.{Float64, inf, fin}
use judgekit.Base.Int.{ℤ, pos, negsuc}

-- The number of binary digits: the steps halve the range in which it lies.
unfoldable pub width_by : List ℕ → ℕ → ℕ
width_by [] n = if eqb n 0 then 0 else 1
width_by (e ∷ es) n =
    let long = leb (2 ^ e) n in
    (if long then e else 0) + width_by es (if long then n / 2 ^ e else n)

abbrev pub width_steps : List ℕ
width_steps = 4096 ∷ 2048 ∷ 1024 ∷ 512 ∷ 256 ∷ 128 ∷ 64 ∷ 32 ∷ 16 ∷ 8 ∷ 4 ∷ 2 ∷ 1 ∷ []

-- For numbers below 2 ^ 8192; a quotient of two doubles has at most 4196 digits.
unfoldable pub width : ℕ → ℕ
unfolding width_by
width = width_by width_steps

-- `p / q` units at a scale of `2 ^ k` units.
unfoldable pub round_at : (k p q : ℕ) → ℕ
round_at k p q =
    let scale = q * 2 ^ k in
    let down = p / scale in
    let rest = 2 * (p % scale) in
    (if ltb scale rest || (eqb scale rest && eqb (down % 2) 1) then down + 1 else down) * 2 ^ k

-- A double keeps 53 digits.
unfoldable pub round_units : (p q : ℕ) → ℕ
unfolding width round_at
round_units p q = round_at (width (p / q) - 53) p q

-- The double nearest to `± p / q` units.
unfoldable pub rounded : (negative : Bool) (p q : ℕ) → Float64
unfolding round_units
rounded s p q = let u = round_units p q in if ltb u (2 ^ 2098) then fin s u else inf s

-- `float64(i)`
unfoldable pub of_int : ℤ → Float64
unfolding rounded
of_int (pos n) = rounded false (n * 2 ^ 1074) 1
of_int (negsuc n) = rounded true ((n + 1) * 2 ^ 1074) 1
