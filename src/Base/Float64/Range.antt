-- ===== src/Base/Float64/Range.antt =====
-- Arithmetic on values between -n and n, for small numbers `n`.
use Prim.Native.Nat.{ℕ, ◌+◌, ◌-◌, ◌*◌, ◌^◌, ◌≤◌, ◌<◌}
use mathlib.Core.Path.{◌≡◌, refl}
use mathlib.Core.Bool.{Bool, true, false, not}
use mathlib.Core.Logic.{inl, inr}
use native.Mathlib.Omega.{arith}
use native.Mathlib.Nat.{mul-le-mul}
use judgekit.Base.Tests.{ltb, eqb, Bool-cases}
use judgekit.Base.Float64.{Float64, nan, inf, fin, of_small, outside, lt_float}
use judgekit.Base.Float64.Rounding.{round_units, rounded}
use judgekit.Base.Float64.Bounds.{IsWithin, rounded-IsWithin, round_units-le, below_max}
use judgekit.Base.Float64.Arithmetic.{add, sub, mul, div, same, add_signed}

-- A float between `-n` and `n`.
pub record IsMagnitude (n : ℕ) (x : Float64) : Type 0 where
  pub negative : Bool
  pub units : ℕ
  pub is_finite : x ≡ fin negative units
  pub bounded : units ≤ n * 2 ^ 1074

pub rounded-IsMagnitude :
    (s : Bool) (p q n : ℕ)
    → 0 < q
    → n < 2 ^ 53
    → p ≤ q * (n * 2 ^ 1074)
    → IsMagnitude n (rounded s p q)
unfolding rounded
rounded-IsMagnitude s p q n pos small h =
    let bound = round_units-le 1074 n p q pos small h in
    let finite = below_max (round_units p q) (omega (arith, bound, small)) in
    record { negative = s; units = round_units p q; is_finite = rw finite refl; bounded = bound }

-- A float between 0 and 1; only a zero may be negative.
pub record IsProbability (x : Float64) : Type 0 where
  pub negative : Bool
  pub units : ℕ
  pub is_finite : x ≡ fin negative units
  pub bounded : units ≤ 2 ^ 1074
  pub signed : negative ≡ true → units ≡ 0

-- What passes the check of a probability.
pub outside→IsProbability : (x : Float64) → outside 0 1 x ≡ false → IsProbability x
unfolding outside of_small lt_float
outside→IsProbability nan h = cc
outside→IsProbability (inf s) h = cc
outside→IsProbability (fin false m) h = record {
  negative = false;
  units = m;
  is_finite = refl;
  bounded = ground arith;
  signed = λ e. cc;
}
outside→IsProbability (fin true m) h = record {
  negative = true;
  units = m;
  is_finite = refl;
  bounded = ground arith;
  signed = λ e. ground arith;
}

add_signed-IsMagnitude :
    (s t : Bool) (m n : ℕ)
    → m ≤ 2 ^ 1074
    → n ≤ 2 ^ 1074
    → (s ≡ true → m ≡ 0)
    → (t ≡ false → n ≡ 0)
    → IsMagnitude 1 (add_signed s t m n)
unfolding add_signed
add_signed-IsMagnitude false false m n bm bn zm zn =
    let z = zn refl in
    rounded-IsMagnitude false (m + n) 1 1 (omega arith) (omega arith) (omega (arith, bm, z))
add_signed-IsMagnitude true true m n bm bn zm zn =
    let z = zm refl in
    rounded-IsMagnitude true (m + n) 1 1 (omega arith) (omega arith) (omega (arith, bn, z))
add_signed-IsMagnitude true false m n bm bn zm zn =
    let z : m ≡ 0 = zm refl in
    let w : n ≡ 0 = zn refl in
    rw z (rw w (record { negative = false; units = 0; is_finite = refl; bounded = omega arith }))
add_signed-IsMagnitude false true m n bm bn zm zn = elim (Bool-cases (ltb n m)) [
  | inl less ↦
      rw less
        (rounded-IsMagnitude false (m - n) 1 1 (omega arith) (omega arith) (omega (arith, bm)))
  | inr more ↦ rw more (elim (Bool-cases (ltb m n)) [
    | inl less ↦
        rw less
          (rounded-IsMagnitude true (n - m) 1 1 (omega arith) (omega arith) (omega (arith, bn)))
    | inr equal ↦
        rw equal (record { negative = false; units = 0; is_finite = refl; bounded = omega arith })
  ])
]

not-false : (b : Bool) → not b ≡ false → b ≡ true
not-false true h = refl
not-false false h = cc

same_self : (b : Bool) → same b b ≡ true
same_self true = refl
same_self false = refl

pub sub-IsMagnitude : (x y : Float64) → IsProbability x → IsProbability y → IsMagnitude 1 (sub x y)
unfolding add
sub-IsMagnitude x y p q =
    let e = p.is_finite in
    let f = q.is_finite in
    rw e (
      rw f (
        add_signed-IsMagnitude p.negative _ p.units q.units p.bounded q.bounded p.signed
          (λ h. q.signed (not-false q.negative h))))

pub square-IsWithin : (x : Float64) → IsMagnitude 1 x → IsWithin 1 (mul x x)
unfolding mul
square-IsWithin x w =
    let e = w.is_finite in
    let bound = mul-le-mul w.bounded w.bounded in
    rw e (
      rw (same_self w.negative) (
        rounded-IsWithin (w.units * w.units) (2 ^ 1074) 1 (omega arith) (omega arith)
          (omega (arith, bound))))

pub add-IsWithin :
    (x y : Float64) (n : ℕ)
    → n + 1 < 2 ^ 53
    → IsWithin n x
    → IsWithin 1 y
    → IsWithin (n + 1) (add x y)
unfolding add add_signed
add-IsWithin x y n small a b =
    let e = a.is_finite in
    let f = b.is_finite in
    rw e (
      rw f (
        rounded-IsWithin (a.units + b.units) 1 (n + 1) (omega arith) small
          (omega (arith, a.bounded, b.bounded))))

pub div-IsWithin : (x : Float64) (n : ℕ) → 0 < n → IsWithin n x → IsWithin 1 (div x (of_small n))
unfolding div of_small
div-IsWithin x n pos a =
    let e = a.is_finite in
    let scaled : (u n : ℕ) → u ≤ n * 2 ^ 1074 → u * 2 ^ 1074 ≤ n * 2 ^ 1074 * (1 * 2 ^ 1074) =
      λ u n h. omega (arith, h) in
    let nonzero : eqb (n * 2 ^ 1074) 0 ≡ false = ground arith in
    rw e (
      rw nonzero (
        rounded-IsWithin (a.units * 2 ^ 1074) (n * 2 ^ 1074) 1 (omega arith) (omega arith)
          (scaled a.units n a.bounded)))
