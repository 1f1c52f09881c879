-- ===== src/Calibration/Scoring.antt =====
-- calibration/scoring.go: scores of probabilities against outcomes.
pub mod Bins
pub mod Pairs
pub mod Brier
use judgekit.Base.{
  ℕ, zero, suc, ◌+◌, ◌-◌, Bool, true, false, not, ◌&&◌, Option, none, some, List, [], ◌∷◌, length,
  is_empty, eqb, leb, if◌then◌else◌, Result, ok, err, ◌>>=◌, ◌>>◌, ensure, refuse,
}
use judgekit.Base.Int.{ℤ, pos, negsuc, lt_int}
use judgekit.Base.Float64.{Float64, fin, of_small, eq_float, outside}
use judgekit.Base.Float64.Arithmetic
use judgekit.Base.Float64.Arithmetic.{sub, mul, div, abs, truncate}
use judgekit.Assessment.Types.{ClaimAssessment}
use judgekit.Judging.Aggregate.{quotient}
use judgekit.Calibration.Gold.{GoldClaim}
use judgekit.Calibration.Confusion.{ClaimMatcher, matcher_of, find_predicted, is_entailed}

-- The messages of the two functions differ: they begin with `brier:` and with `ece:`.
pub data ScoreError : Type 0 where
  brier_lengths ece_lengths few_bins : ScoreError
  brier_confidence brier_outcome ece_confidence ece_outcome : (index : ℕ) → ScoreError

-- `z != 0 && z != 1`
unfoldable pub is_outcome : Float64 → Bool
unfolding eq_float of_small
is_outcome z = not (not (eq_float z (of_small 0)) && not (eq_float z (of_small 1)))

-- The tests at the head of the loop of `BrierScore`.
unfoldable pub check_brier_pair : ℕ → (p z : Float64) → Result ScoreError (Unit {0})
unfolding outside is_outcome
check_brier_pair i p z = do
  refuse (outside 0 1 p) (brier_confidence i)
  ensure (is_outcome z) (brier_outcome i)

-- And of that of `ExpectedCalibrationError`.
unfoldable pub check_ece_pair : ℕ → (p z : Float64) → Result ScoreError (Unit {0})
unfolding outside is_outcome
check_ece_pair i p z = do
  refuse (outside 0 1 p) (ece_confidence i)
  ensure (is_outcome z) (ece_outcome i)

-- The loop from index `i`; the two slices have the same length.
unfoldable pub sum_squares : ℕ → Float64 → List Float64 → List Float64 → Result ScoreError Float64
unfolding check_brier_pair Arithmetic.add mul
sum_squares i sum (p ∷ ps) (z ∷ zs) = do
  check_brier_pair i p z
  sum_squares (i + 1) (Arithmetic.add sum (mul (sub p z) (sub p z))) ps zs
sum_squares i sum _ _ = ok sum

unfoldable pub brier_score : (confidences outcomes : List Float64) → Result ScoreError Float64
unfolding sum_squares div of_small
brier_score confidences outcomes =
    if not (eqb (length confidences) (length outcomes))
    then err brier_lengths
    else if is_empty confidences
    then ok (of_small 0)
    else do
      sum ← sum_squares 0 (of_small 0) confidences outcomes
      ok (div sum (of_small (length confidences)))

pub record Bucket : Type 0 where
  pub conf_sum : Float64
  pub correct : ℕ
  pub count : ℕ

abbrev empty_bucket : Bucket
empty_bucket = record { conf_sum = fin false 0; correct = 0; count = 0 }

-- `make([]bucket, bins)`
unfoldable pub empty_buckets : ℕ → List Bucket
empty_buckets zero = []
empty_buckets (suc n) = empty_bucket ∷ empty_buckets n

unfoldable pub fill : (p z : Float64) → Bucket → Bucket
unfolding Arithmetic.add eq_float of_small
fill p z b = record {
  conf_sum = Arithmetic.add b.conf_sum p;
  correct = if eq_float z (of_small 1) then b.correct + 1 else b.correct;
  count = b.count + 1;
}

-- The update of `bs[idx]`.
unfoldable pub fill_at : ℕ → (p z : Float64) → List Bucket → List Bucket
unfolding fill
fill_at idx p z [] = []
fill_at zero p z (b ∷ bs) = fill p z b ∷ bs
fill_at (suc idx) p z (b ∷ bs) = b ∷ fill_at idx p z bs

-- `idx := int(p / width)`, at most the last index.
unfoldable pub bin_index : (bins : ℕ) → Float64 → ℕ
unfolding truncate div of_small
bin_index bins p =
    let idx = truncate (div p (div (of_small 1) (of_small bins))) in
    if leb bins idx then bins - 1 else idx

unfoldable pub fill_buckets :
    (bins i : ℕ) → List Bucket → List Float64 → List Float64 → Result ScoreError (List Bucket)
unfolding check_ece_pair fill_at bin_index
fill_buckets bins i bs (p ∷ ps) (z ∷ zs) = do
  check_ece_pair i p z
  fill_buckets bins (i + 1) (fill_at (bin_index bins p) p z bs) ps zs
fill_buckets bins i bs _ _ = ok bs

-- `(count / n) * |acc - conf|`
unfoldable pub bucket_error : (n : ℕ) → Bucket → Float64
unfolding quotient mul div of_small Arithmetic.add
bucket_error n b =
    mul (div (of_small b.count) (of_small n))
      (abs (sub (quotient b.correct b.count) (div b.conf_sum (of_small b.count))))

unfoldable pub sum_buckets : (n : ℕ) → Float64 → List Bucket → Float64
unfolding bucket_error Arithmetic.add
sum_buckets n ece [] = ece
sum_buckets n ece (b ∷ bs) =
    sum_buckets n (if eqb b.count 0 then ece else Arithmetic.add ece (bucket_error n b)) bs

-- `bins` as an index count, for `bins >= 1`.
abbrev pub count_of : ℤ → ℕ
count_of (pos n) = n
count_of (negsuc n) = 0

unfoldable pub expected_calibration_error :
    (confidences outcomes : List Float64) → (bins : ℤ) → Result ScoreError Float64
unfolding empty_buckets fill_buckets sum_buckets of_small
expected_calibration_error confidences outcomes bins =
    if lt_int bins (pos 1)
    then err few_bins
    else if not (eqb (length confidences) (length outcomes))
    then err ece_lengths
    else if is_empty confidences
    then ok (of_small 0)
    else do
      bs ← fill_buckets (count_of bins) 0 (empty_buckets (count_of bins)) confidences outcomes
      ok (sum_buckets (length confidences) (of_small 0) bs)

-- The outcome of a gold label.
unfoldable pub outcome : GoldClaim → Float64
unfolding is_entailed of_small
outcome g = if is_entailed g.label then of_small 1 else of_small 0

unfoldable pub pairs_from :
    List GoldClaim → List ClaimAssessment → ClaimMatcher → List Float64 × List Float64
unfolding find_predicted outcome
pairs_from [] predicted matches = ([], [])
pairs_from (g ∷ gs) predicted matches =
    let rest = pairs_from gs predicted matches in
    elim (find_predicted predicted g.claim matches) [
      | none ↦ rest
      | some verdict ↦ elim verdict.entailed_probability [
        | none ↦ rest
        | some p ↦ (p ∷ rest.0, outcome g ∷ rest.1)
      ]
    ]

unfoldable pub confidence_outcome_pairs :
    List GoldClaim → List ClaimAssessment → Option ClaimMatcher → List Float64 × List Float64
unfolding pairs_from matcher_of
confidence_outcome_pairs gold predicted matcher = pairs_from gold predicted (matcher_of matcher)
