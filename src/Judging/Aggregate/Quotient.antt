-- ===== src/Judging/Aggregate/Quotient.antt =====
-- A quotient of counts lies between 0 and 1.
use judgekit.Base.{ℕ, ◌*◌, ◌^◌, ◌≤◌, ◌<◌, arith}
use judgekit.Base.Float64.Bounds.{IsWithin, rounded-IsWithin}
use judgekit.Judging.Aggregate.{quotient}

pub quotient-IsWithin : (num den : ℕ) → 0 < den → num ≤ den → IsWithin 1 (quotient num den)
unfolding quotient
quotient-IsWithin num den pos h =
    rounded-IsWithin (num * 2 ^ 1074) den 1 pos (omega arith) (scaled num den h)
  where
    scaled : (m n : ℕ) → m ≤ n → m * 2 ^ 1074 ≤ n * (1 * 2 ^ 1074)
    scaled m n h = omega arith
