-- ===== src/Calibration/Scoring/Brier.antt =====
-- The Brier score lies between 0 and 1.
use judgekit.Base.{
  ℕ, ◌+◌, ◌*◌, ◌^◌, ◌≤◌, ◌<◌, ◌≡◌, refl, true, false, List, [], ◌∷◌, length, ok, arith, sym, ◌∙◌,
  >>=-eq-ok,
}
use judgekit.Base.Float64.{Float64, nan, inf, fin, of_small, eq_float, outside}
use judgekit.Base.Float64.Arithmetic.{sub}
use judgekit.Base.Float64.Bounds.{IsWithin, IsWithin-outside}
use judgekit.Base.Float64.Range.{
  IsProbability, outside→IsProbability, sub-IsMagnitude, square-IsWithin, add-IsWithin,
  div-IsWithin,
}
use judgekit.Calibration.Scoring.{is_outcome, brier_score}
use judgekit.Calibration.Scoring.Pairs.{
  AllScored, squares, mean, brier_score_lem, brier_score_iff, brier_checks,
}

is_outcome→IsProbability : (z : Float64) → is_outcome z ≡ true → IsProbability z
unfolding is_outcome eq_float of_small
is_outcome→IsProbability nan h = cc
is_outcome→IsProbability (inf true) h = cc
is_outcome→IsProbability (inf false) h = cc
is_outcome→IsProbability (fin false m) h = record {
  negative = false;
  units = m;
  is_finite = refl;
  bounded = ground arith;
  signed = λ e. cc;
}
is_outcome→IsProbability (fin true m) h = record {
  negative = true;
  units = m;
  is_finite = refl;
  bounded = ground arith;
  signed = λ e. ground arith;
}

IsWithin-le : (m n : ℕ) (x : Float64) → m ≤ n → IsWithin m x → IsWithin n x
IsWithin-le m n x h w = record {
  units = w.units;
  is_finite = w.is_finite;
  bounded = grown w.units m n h w.bounded;
}
  where
    grown : (u m n : ℕ) → m ≤ n → u ≤ m * 2 ^ 1074 → u ≤ n * 2 ^ 1074
    grown u m n h b = omega (arith, h, b)

-- Each pair adds at most 1 to the sum.
squares-IsWithin :
    (n : ℕ) (sum : Float64) (ps zs : List Float64)
    → n + length ps < 2 ^ 53
    → IsWithin n sum
    → AllScored ps zs
    → IsWithin (n + length ps) (squares sum ps zs)
unfolding squares
squares-IsWithin n sum [] zs small w s = IsWithin-le n _ sum (omega arith) w
squares-IsWithin n sum (p ∷ ps) [] small w s = IsWithin-le n _ sum (omega arith) w
squares-IsWithin n sum (p ∷ ps) (z ∷ zs) small w (here, later) =
    let gap =
      sub-IsMagnitude p z (outside→IsProbability p here.probability)
        (is_outcome→IsProbability z here.outcome) in
    let next = add-IsWithin sum _ n (omega (arith, small)) w (square-IsWithin (sub p z) gap) in
    IsWithin-le _ _ _ (omega arith)
      (squares-IsWithin (n + 1) _ ps zs (omega (arith, small)) next later)

mean-IsWithin :
    (ps zs : List Float64) → length ps < 2 ^ 53 → AllScored ps zs → IsWithin 1 (mean ps zs)
unfolding mean of_small
mean-IsWithin [] zs small s = record { units = 0; is_finite = refl; bounded = omega arith }
mean-IsWithin (p ∷ ps) zs small s = div-IsWithin _ (length (p ∷ ps)) (omega arith) (
    IsWithin-le _ _ _ (omega arith) (
      squares-IsWithin 0 (of_small 0) (p ∷ ps) zs (omega (arith, small))
        (record { units = 0; is_finite = refl; bounded = omega arith }) s))

-- With fewer than 2 ^ 53 pairs, a Brier score that is computed lies in [0, 1], although every
-- difference, square, sum and the quotient are rounded.
pub brier_score-IsWithin :
    (ps zs : List Float64) {v : Float64}
    → length ps < 2 ^ 53
    → brier_score ps zs ≡ ok v
    → outside 0 1 v ≡ false
brier_score-IsWithin ps zs {v} small e =
    let (_, scored) = (brier_score_iff ps zs).0 (v, e) in
    let (_, _, made) = >>=-eq-ok (brier_checks ps zs) _ (sym (brier_score_lem ps zs) ∙ e) in
    let same : mean ps zs ≡ v = cc in
    rw (← same) (IsWithin-outside (mean ps zs) (mean-IsWithin ps zs small scored))
