-- ===== src/Calibration/Scoring/Pairs.antt =====
-- When the two loops over probabilities and outcomes go through.
use judgekit.Base.{
  wrap, ap, arith, ℕ, ◌+◌, ◌≡◌, refl, true, false, List, [], ◌∷◌, length, is_empty, eqb,
  if◌then◌else◌, Result, ok, err, ◌>>=◌, ◌>>◌, Passes, ensure, ◌↔◌, ◌⇔◌, both, >>_iff, refuse_iff,
  ensure_iff, Bool-cases, inl, inr, sym, ◌∙◌, eqb_iff, >>=-eq-ok,
}
use judgekit.Base.Int.{ℤ, pos, lt_int}
use judgekit.Base.Float64.{Float64, of_small, outside}
use judgekit.Base.Float64.Arithmetic
use judgekit.Base.Float64.Arithmetic.{sub, mul, div}
use judgekit.Calibration.Scoring.{
  ScoreError, brier_lengths, ece_lengths, brier_confidence, brier_outcome, ece_confidence,
  ece_outcome, is_outcome, check_brier_pair, check_ece_pair, sum_squares, brier_score, Bucket,
  fill_at, bin_index, fill_buckets, empty_buckets, sum_buckets, expected_calibration_error,
  count_of,
}

-- A probability and an outcome.
pub record IsScored (p z : Float64) : Type 0 where
  pub probability : outside 0 1 p ≡ false
  pub outcome : is_outcome z ≡ true

-- The items at the same index are scored, up to the end of the shorter list.
abbrev pub AllScored : List Float64 → List Float64 → Type 0
AllScored (p ∷ ps) (z ∷ zs) = IsScored p z × AllScored ps zs
AllScored _ _ = Unit

-- The tests of a loop on one pair, at an index.
abbrev pub PairCheck : Type 0
PairCheck = ℕ → Float64 → Float64 → Result ScoreError (Unit {0})

-- The checks of a loop alone.
unfoldable pub check_pairs :
    PairCheck → ℕ → List Float64 → List Float64 → Result ScoreError (Unit {0})
check_pairs check i (p ∷ ps) (z ∷ zs) = do check i p z; check_pairs check (i + 1) ps zs
check_pairs check i _ _ = ok tt

check_brier_pair_iff : (i : ℕ) (p z : Float64) → Passes (check_brier_pair i p z) ↔ IsScored p z
unfolding check_brier_pair
check_brier_pair_iff i p z =
    >>_iff _ _
    ⇔ both (refuse_iff (outside 0 1 p) (brier_confidence i))
        (ensure_iff (is_outcome z) (brier_outcome i))
    ⇔ (λ h. record { probability = h.0; outcome = h.1 }, λ s. (s.probability, s.outcome))

check_brier_pairs_iff :
    (i : ℕ) (ps zs : List Float64) → Passes (check_pairs check_brier_pair i ps zs) ↔ AllScored ps zs
unfolding check_pairs
check_brier_pairs_iff i [] zs = (λ _. tt, λ _. refl)
check_brier_pairs_iff i (p ∷ ps) [] = (λ _. tt, λ _. refl)
check_brier_pairs_iff i (p ∷ ps) (z ∷ zs) =
    >>_iff _ _ ⇔ both (check_brier_pair_iff i p z) (check_brier_pairs_iff (i + 1) ps zs)

-- The sum without the checks.
unfoldable pub squares : Float64 → List Float64 → List Float64 → Float64
unfolding Arithmetic.add mul
squares sum (p ∷ ps) (z ∷ zs) = squares (Arithmetic.add sum (mul (sub p z) (sub p z))) ps zs
squares sum _ _ = sum

after {ℓ} :
    {A : Type ℓ} (m k : Result ScoreError (Unit {0})) (r : Result ScoreError A)
    → (m >>= λ _. (k >>= λ _. r)) ≡ ((m >> k) >>= λ _. r)
after (ok tt) k r = refl
after (err e) k r = refl

sum_squares_lem :
    (i : ℕ) (sum : Float64) (ps zs : List Float64)
    → sum_squares i sum ps zs
      ≡ (check_pairs check_brier_pair i ps zs >>= λ _. ok (squares sum ps zs))
unfolding sum_squares check_pairs squares
sum_squares_lem i sum [] zs = refl
sum_squares_lem i sum (p ∷ ps) [] = refl
sum_squares_lem i sum (p ∷ ps) (z ∷ zs) =
    rw (sum_squares_lem (i + 1) (Arithmetic.add sum (mul (sub p z) (sub p z))) ps zs)
      (after (check_brier_pair i p z) (check_pairs check_brier_pair (i + 1) ps zs) _)

-- The buckets without the checks.
unfoldable pub filled : ℕ → List Bucket → List Float64 → List Float64 → List Bucket
unfolding fill_at bin_index
filled bins bs (p ∷ ps) (z ∷ zs) = filled bins (fill_at (bin_index bins p) p z bs) ps zs
filled bins bs _ _ = bs

pub fill_buckets_lem :
    (bins i : ℕ) (bs : List Bucket) (ps zs : List Float64)
    → fill_buckets bins i bs ps zs
      ≡ (check_pairs check_ece_pair i ps zs >>= λ _. ok (filled bins bs ps zs))
unfolding fill_buckets check_pairs filled
fill_buckets_lem bins i bs [] zs = refl
fill_buckets_lem bins i bs (p ∷ ps) [] = refl
fill_buckets_lem bins i bs (p ∷ ps) (z ∷ zs) =
    rw (fill_buckets_lem bins (i + 1) (fill_at (bin_index bins p) p z bs) ps zs)
      (after (check_ece_pair i p z) (check_pairs check_ece_pair (i + 1) ps zs) _)

-- A result without its value.
abbrev pub status {ℓ κ} : {E : Type ℓ} {A : Type κ} → Result E A → Result E (Unit {0})
status (ok v) = ok tt
status (err e) = err e

-- What a score checks: equal lengths, then the pairs in order.
unfoldable pub check_scores :
    (lengths : ScoreError) → PairCheck → List Float64 → List Float64 → Result ScoreError (Unit {0})
unfolding check_pairs
check_scores lengths check ps zs = do
  ensure (eqb (length ps) (length zs)) lengths
  check_pairs check 0 ps zs

abbrev pub brier_checks : List Float64 → List Float64 → Result ScoreError (Unit {0})
brier_checks ps zs = check_scores brier_lengths check_brier_pair ps zs

abbrev pub ece_checks : List Float64 → List Float64 → Result ScoreError (Unit {0})
ece_checks ps zs = check_scores ece_lengths check_ece_pair ps zs

unfoldable pub mean : List Float64 → List Float64 → Float64
unfolding squares div of_small
mean ps zs =
    if is_empty ps then of_small 0 else div (squares (of_small 0) ps zs) (of_small (length ps))

bind_ok :
    {A B : Type 0} (m : Result ScoreError (Unit {0})) (v : A) (f : A → B)
    → ((m >>= λ _. ok v) >>= λ x. ok (f x)) ≡ (m >>= λ _. ok (f v))
bind_ok (ok tt) v f = refl
bind_ok (err e) v f = refl

status_ok : {A : Type 0} (m : Result ScoreError (Unit {0})) (v : A) → status (m >>= λ _. ok v) ≡ m
status_ok (ok tt) v = refl
status_ok (err e) v = refl

-- The Brier score is the checks, then the mean.
pub brier_score_lem :
    (ps zs : List Float64) → brier_score ps zs ≡ (brier_checks ps zs >>= λ _. ok (mean ps zs))
unfolding brier_score check_scores mean check_pairs
brier_score_lem [] zs = elim (Bool-cases (eqb 0 (length zs))) [
  | inl e ↦ rw e refl
  | inr e ↦ rw e refl
]
brier_score_lem (p ∷ ps) zs = elim (Bool-cases (eqb (length (p ∷ ps)) (length zs))) [
  | inl e ↦ rw e (
      rw (sum_squares_lem 0 (of_small 0) (p ∷ ps) zs)
        (bind_ok (check_pairs check_brier_pair 0 (p ∷ ps) zs) _ _))
  | inr e ↦ rw e refl
]

unfoldable pub ece : ℕ → List Float64 → List Float64 → Float64
unfolding sum_buckets filled of_small empty_buckets
ece bins ps zs =
    if is_empty ps
    then of_small 0
    else sum_buckets (length ps) (of_small 0) (filled bins (empty_buckets bins) ps zs)

pub expected_calibration_error_lem :
    (ps zs : List Float64) (bins : ℤ)
    → lt_int bins (pos 1) ≡ false
    → expected_calibration_error ps zs bins
      ≡ (ece_checks ps zs >>= λ _. ok (ece (count_of bins) ps zs))
unfolding expected_calibration_error check_scores ece check_pairs
expected_calibration_error_lem [] zs bins b =
    rw b (elim (Bool-cases (eqb 0 (length zs))) [ inl e ↦ rw e refl | inr e ↦ rw e refl ])
expected_calibration_error_lem (p ∷ ps) zs bins b =
    rw b (elim (Bool-cases (eqb (length (p ∷ ps)) (length zs))) [
      | inl e ↦ rw e (
          rw (fill_buckets_lem (count_of bins) 0 (empty_buckets (count_of bins)) (p ∷ ps) zs)
            (bind_ok (check_pairs check_ece_pair 0 (p ∷ ps) zs) _ _))
      | inr e ↦ rw e refl
    ])

brier_checks_iff :
    (ps zs : List Float64)
    → Passes (brier_checks ps zs) ↔ ((length ps ≡ length zs) × AllScored ps zs)
unfolding check_scores
brier_checks_iff ps zs =
    >>_iff _ _
    ⇔ both
        (ensure_iff (eqb (length ps) (length zs)) brier_lengths ⇔ eqb_iff (length ps) (length zs))
        (check_brier_pairs_iff 0 ps zs)

-- An error of `BrierScore`, as `ExpectedCalibrationError` words it.
abbrev pub as_ece : ScoreError → ScoreError
as_ece brier_lengths = ece_lengths
as_ece (brier_confidence i) = ece_confidence i
as_ece (brier_outcome i) = ece_outcome i
as_ece e = e

check_pair-as_ece :
    (i : ℕ) (p z : Float64) → check_ece_pair i p z ≡ wrap as_ece (check_brier_pair i p z)
unfolding check_ece_pair check_brier_pair
check_pair-as_ece i p z = ground arith

wrap->> :
    (m k : Result ScoreError (Unit {0})) → (wrap as_ece m >> wrap as_ece k) ≡ wrap as_ece (m >> k)
wrap->> (ok tt) k = refl
wrap->> (err e) k = refl

check_pairs-as_ece :
    (i : ℕ) (ps zs : List Float64)
    → check_pairs check_ece_pair i ps zs ≡ wrap as_ece (check_pairs check_brier_pair i ps zs)
unfolding check_pairs
check_pairs-as_ece i [] zs = refl
check_pairs-as_ece i (p ∷ ps) [] = refl
check_pairs-as_ece i (p ∷ ps) (z ∷ zs) =
    rw (check_pair-as_ece i p z, check_pairs-as_ece (i + 1) ps zs) (wrap->> _ _)

checks-as_ece : (ps zs : List Float64) → ece_checks ps zs ≡ wrap as_ece (brier_checks ps zs)
unfolding check_scores
checks-as_ece ps zs = elim (Bool-cases (eqb (length ps) (length zs))) [
  | inl e ↦ rw e (check_pairs-as_ece 0 ps zs)
  | inr e ↦ rw e refl
]

-- With at least one bin, the expected calibration error fails exactly on the inputs on which the
-- Brier score fails, at the same check and the same index; only the wording differs.
pub expected_calibration_error-status :
    (ps zs : List Float64) (bins : ℤ)
    → lt_int bins (pos 1) ≡ false
    → status (expected_calibration_error ps zs bins) ≡ wrap as_ece (status (brier_score ps zs))
expected_calibration_error-status ps zs bins b = rw (expected_calibration_error_lem ps zs bins b) (
    rw (brier_score_lem ps zs) (
      status_ok (ece_checks ps zs) _
      ∙ (checks-as_ece ps zs ∙ ap (wrap as_ece) (sym (status_ok (brier_checks ps zs) _)))))

-- The Brier score is computed exactly if there are as many outcomes as probabilities, every
-- probability lies in [0, 1] and every outcome is 0 or 1.
pub brier_score_iff :
    (ps zs : List Float64)
    → ((v : Float64) × (brier_score ps zs ≡ ok v)) ↔ ((length ps ≡ length zs) × AllScored ps zs)
brier_score_iff ps zs = (
  λ (v, e).
      let scored = brier_score_lem ps zs in
      let (_, checked, _) = >>=-eq-ok (brier_checks ps zs) _ (sym scored ∙ e) in
      (brier_checks_iff ps zs).0 checked,
  λ h. (mean ps zs, brier_score_lem ps zs ∙ rw ((brier_checks_iff ps zs).1 h) refl),
)

fails :
    {A : Type 0} (m : Result ScoreError (Unit {0})) (v : A) {e : ScoreError}
    → (m >>= λ _. ok v) ≡ err e
    → m ≡ err e
fails (ok tt) v h = cc
fails (err f) v h = cc

pub brier_score-fails :
    (ps zs : List Float64) {e : ScoreError} → brier_score ps zs ≡ err e → brier_checks ps zs ≡ err e
brier_score-fails ps zs h =
    fails (brier_checks ps zs) (mean ps zs) (sym (brier_score_lem ps zs) ∙ h)

ece_checks-pass :
    (ps zs : List Float64) → (length ps ≡ length zs) × AllScored ps zs → Passes (ece_checks ps zs)
ece_checks-pass ps zs scored = checks-as_ece ps zs ∙ rw ((brier_checks_iff ps zs).1 scored) refl

-- Where there is a Brier score there is a calibration error.
pub expected_calibration_error-ok :
    (ps zs : List Float64) (bins : ℤ) {v : Float64}
    → lt_int bins (pos 1) ≡ false
    → brier_score ps zs ≡ ok v
    → expected_calibration_error ps zs bins ≡ ok (ece (count_of bins) ps zs)
expected_calibration_error-ok ps zs bins {v} b e =
    let scored = (brier_score_iff ps zs).0 (v, e) in
    expected_calibration_error_lem ps zs bins b ∙ rw (ece_checks-pass ps zs scored) refl
