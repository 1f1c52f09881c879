-- ===== src/Base/Float64/Bounds.antt =====
-- Rounding respects bounds that are themselves doubles.
use Prim.Native.Nat.{ℕ, zero, suc, ◌+◌, ◌-◌, ◌*◌, ◌/◌, ◌%◌, ◌^◌, ◌≤◌, ◌<◌}
use mathlib.Core.Path.{◌≡◌, refl, sym, ap, ◌∙◌}
use mathlib.Core.Bool.{Bool, true, false, ◌||◌}
use mathlib.Core.List.{List, [], ◌∷◌}
use mathlib.Core.Logic.{inl, inr}
use native.Mathlib.Omega.{arith}
use native.Mathlib.Nat.{
  add-zero, add-suc, pow-zero, mul-one, pow-suc, mul-le-mul_left, mul-pos, div-lt_iff_lt-mul,
  div-add-mod, one-le-pow, mul-le-mul_right, mul_assoc, pow-le-pow_right, div-le_of_le-mul,
  mul-lt-mul_of_pos_right,
}
use judgekit.Base.Tests.{ltb, leb, if◌then◌else◌, Bool-cases}
use judgekit.Base.Float64.{Float64, nan, inf, fin, of_small, outside}
use judgekit.Base.Float64.Rounding.{width_by, width_steps, width, round_at, round_units, rounded}

pow_add : (a b : ℕ) → 2 ^ (a + b) ≡ 2 ^ a * 2 ^ b
pow_add a zero = rw (add-zero a, pow-zero 2, mul-one (2 ^ a)) refl
pow_add a (suc b) =
    rw (add-suc a b, pow-suc 2 (a + b), pow-suc 2 b, pow_add a b) (mul_assoc (2 ^ a) (2 ^ b) 2)

pow-lt : (a b : ℕ) → 2 ^ a < 2 ^ b → a < b
pow-lt a b h = ground (arith, λ (le : b ≤ a). pow-le-pow_right {n = 2} (omega arith) le)

width_by-le : (es : List ℕ) (n b : ℕ) → n < 2 ^ b → width_by es n ≤ b
unfolding width_by
width_by-le [] n zero h = ground arith
width_by-le [] n (suc b) h = ground arith
width_by-le (e ∷ es) n b h = elim (Bool-cases (leb (2 ^ e) n)) [
  | inl long ↦
      let below : e < b = pow-lt e b (ground arith) in
      let parts : 2 ^ b ≡ 2 ^ (b - e) * 2 ^ e = ap (λ x. 2 ^ x) (omega arith) ∙ pow_add (b - e) e in
      let rest =
        width_by-le es (n / 2 ^ e) (b - e)
          ((div-lt_iff_lt-mul (one-le-pow e 2 (omega arith))).1 (rw parts at h)) in
      rw long (omega (arith, rest))
  | inr short ↦ rw short (omega (arith, width_by-le es n b h))
]

-- The carry of a rounding goes no further than a multiple of the scale that is not exceeded.
carry-le :
    (p scale t : ℕ) (b : Bool)
    → 0 < scale
    → p ≤ scale * t
    → (b ≡ true → 0 < p % scale)
    → (if b then p / scale + 1 else p / scale) ≤ t
carry-le p scale t b pos h up = elim (Bool-cases (ltb (p / scale) t)) [
  | inl below ↦ ground arith
  | inr above ↦
      let whole : scale * t ≤ scale * (p / scale) = mul-le-mul_left scale (ground arith) in
      let tight : (p / scale ≤ t) × (p % scale ≡ 0) =
        (div-le_of_le-mul scale h, omega (arith, whole, h, div-add-mod p scale)) in
      ground (arith, up)
]

round_at-le : (k p q t : ℕ) → 0 < q → p ≤ (q * 2 ^ k) * t → round_at k p q ≤ t * 2 ^ k
unfolding round_at
round_at-le k p q t pos h =
    let scale : 0 < q * 2 ^ k = mul-pos pos (one-le-pow k 2 (omega arith)) in
    mul-le-mul_right (2 ^ k) (carry-le p (q * 2 ^ k) t _ scale h (λ up. ground arith))

-- At every scale up to that of the bound.
round_at-bound : (k m p q t : ℕ) → 0 < q → k ≤ m → p ≤ q * (t * 2 ^ m) → round_at k p q ≤ t * 2 ^ m
round_at-bound k m p q t pos fits h =
    let parts : 2 ^ m ≡ 2 ^ (m - k) * 2 ^ k = ap (λ x. 2 ^ x) (omega arith) ∙ pow_add (m - k) k in
    let scaled : t * 2 ^ m ≡ (t * 2 ^ (m - k)) * 2 ^ k =
      ap (λ x. t * x) parts ∙ sym (mul_assoc t (2 ^ (m - k)) (2 ^ k)) in
    let regrouped : q * ((t * 2 ^ (m - k)) * 2 ^ k) ≡ (q * 2 ^ k) * (t * 2 ^ (m - k)) =
      grind arith in
    rw scaled (round_at-le k p q (t * 2 ^ (m - k)) pos (rw (← regrouped) (rw scaled at h)))

width-le : (n m : ℕ) → n < 2 ^ (53 + m) → width n - 53 ≤ m
unfolding width
width-le n m h = omega (arith, width_by-le width_steps n (53 + m) h)

-- A quotient of at most `t * 2 ^ m` units, where `t` has 53 digits, is rounded to at most that.
pub round_units-le :
    (m t p q : ℕ) → 0 < q → t < 2 ^ 53 → p ≤ q * (t * 2 ^ m) → round_units p q ≤ t * 2 ^ m
unfolding round_units
round_units-le m t p q pos small h =
    let quotient : p / q ≤ t * 2 ^ m = div-le_of_le-mul q h in
    let bound : t * 2 ^ m < 2 ^ 53 * 2 ^ m =
      mul-lt-mul_of_pos_right small (one-le-pow m 2 (omega arith)) in
    let room : p / q < 2 ^ (53 + m) = rw (pow_add 53 m) (omega (arith, quotient, bound)) in
    round_at-bound (width (p / q) - 53) m p q t pos (width-le (p / q) m room) h

-- A float that is not below 0, and at most `n`.
pub record IsWithin (n : ℕ) (x : Float64) : Type 0 where
  pub units : ℕ
  pub is_finite : x ≡ fin false units
  pub bounded : units ≤ n * 2 ^ 1074

pub below_max : (u : ℕ) → u ≤ 2 ^ 53 * 2 ^ 1074 → ltb u (2 ^ 2098) ≡ true
below_max u h = ground arith

-- A quotient of units that is at most a small number is rounded to at most it.
pub rounded-IsWithin :
    (p q n : ℕ) → 0 < q → n < 2 ^ 53 → p ≤ q * (n * 2 ^ 1074) → IsWithin n (rounded false p q)
unfolding rounded
rounded-IsWithin p q n pos small h =
    let bound = round_units-le 1074 n p q pos small h in
    let finite : ltb (round_units p q) (2 ^ 2098) ≡ true =
      below_max (round_units p q) (omega (arith, bound, small)) in
    record { units = round_units p q; is_finite = rw finite refl; bounded = bound }

unit_range : (u : ℕ) → u ≤ 2 ^ 1074 → (ltb u 0 || ltb (2 ^ 1074) u) ≡ false
unit_range u h = ground arith

-- With the checks of the validators: within [0, 1].
pub IsWithin-outside : (x : Float64) → IsWithin 1 x → outside 0 1 x ≡ false
unfolding outside of_small judgekit.Base.Float64.lt_float
IsWithin-outside x w = let e = w.is_finite in rw e (unit_range w.units (omega (arith, w.bounded)))
