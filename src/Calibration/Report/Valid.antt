-- ===== src/Calibration/Report/Valid.antt =====
-- What `Calibrate` returns, and with which errors it can fail once its input is accepted.
use judgekit.Base.{
  Result-cases, eqb_iff, ℕ, ◌+◌, ◌≡◌, refl, ◌∙◌, Bool, true, false, Option, none, some, List, [],
  ◌∷◌, length, All, eqb, if◌then◌else◌, Result, ok, err, ◌>>=◌, wrap, ensure, Passes, >>_iff,
  ensure_iff, arith, Bool-cases, inl, inr, ◌⊎◌,
}
use judgekit.Base.Text.{Bytes, is_sha256, ==_iff}
use judgekit.Base.Float64.{Float64, outside}
use judgekit.CanonicalJson.{Platform}
use judgekit.Eval.Sealing.{sum-is_sha256}
use judgekit.Calibration.Scoring.{
  ScoreError, brier_confidence, brier_lengths, check_brier_pair, is_outcome, brier_score,
  expected_calibration_error,
}
use judgekit.Calibration.Scoring.Pairs.{check_scores, check_pairs, ece, brier_score-fails}
use judgekit.Calibration.Report.{
  Tally, Report, CalibrateInput, CalibrationError, bad_scores, bad_brier, bad_ece, seal_failed,
  outside_unit, check_score, validate_report_body, validate_report, report_digest, report_input,
  seal, draft_report, with_scores, tally, empty_tally, max1, bins_of, calibrate, check_reports,
  bad_report_digest,
}
use judgekit.Calibration.Report.Tallies.{IsTally}

-- The errors that stay possible when the gold set, the digest and the reports are accepted: a
-- probability out of range, a calibration error out of range, a value that has no JSON.
abbrev pub IsLate : CalibrationError → Type 0
IsLate (bad_scores (brier_confidence i)) = Unit
IsLate bad_ece = Unit
IsLate (seal_failed e) = Unit
IsLate _ = ⊥

pub outside→outside_unit : (x : Float64) → outside 0 1 x ≡ false → outside_unit x ≡ false
unfolding outside outside_unit
outside→outside_unit x h = ground arith

-- Outcomes that are 0 or 1 leave one error.
check_pairs-confidence :
    (i : ℕ) (ps zs : List Float64) {e : ScoreError}
    → All (λ z. is_outcome z ≡ true) zs
    → check_pairs check_brier_pair i ps zs ≡ err e
    → (j : ℕ) × (e ≡ brier_confidence j)
unfolding check_pairs judgekit.Calibration.Scoring.check_brier_pair
check_pairs-confidence i [] zs good h = cc
check_pairs-confidence i (p ∷ ps) [] good h = cc
check_pairs-confidence i (p ∷ ps) (z ∷ zs) {e} good h = elim (Bool-cases (outside 0 1 p)) [
  | inl out ↦ (i, ground (arith, out, h))
  | inr within ↦
      check_pairs-confidence (i + 1) ps zs {e = e} good.1 (ground (arith, within, h, good.0))
]

-- For the pairs of a tally the scores fail at a probability only.
pub scores-fail :
    (n : ℕ) (t : Tally) {e : ScoreError}
    → IsTally n t
    → brier_score t.confidences t.outcomes ≡ err e
    → (j : ℕ) × (e ≡ brier_confidence j)
unfolding check_scores
scores-fail n t {e} h failed =
    let checked = brier_score-fails t.confidences t.outcomes {e = e} failed in
    let same : eqb (length t.confidences) (length t.outcomes) ≡ true = (eqb_iff _ _).1 h.paired in
    check_pairs-confidence 0 t.confidences t.outcomes {e = e} h.outcomes
      (ground (arith, same, checked))

-- All that is checked before the calibration error holds.
pub record IsRated (r : Report) : Type 0 where
  pub version : r.api_version ≡ judgekit.Calibration.Report.report_api_version
  pub protocol_digest : is_sha256 r.protocol_digest ≡ true
  pub dataset_digest : is_sha256 r.dataset_digest ≡ true
  pub recall : outside 0 1 r.extraction_recall ≡ false
  pub sensitivity : outside 0 1 r.sensitivity ≡ false
  pub specificity : outside 0 1 r.specificity ≡ false
  pub false_support : outside 0 1 r.false_support_rate ≡ false
  pub brier : Passes (check_score bad_brier r.brier_score)

IsRated→body : (r : Report) → IsRated r → validate_report_body r ≡ check_score bad_ece r.ece
unfolding validate_report_body
IsRated→body r h = ground (
  arith,
  (==_iff r.api_version _).1 h.version,
  h.protocol_digest,
  h.dataset_digest,
  outside→outside_unit _ h.recall,
  outside→outside_unit _ h.sensitivity,
  outside→outside_unit _ h.specificity,
  outside→outside_unit _ h.false_support,
  h.brier,
)

-- What `Calibrate` returns for an input.
pub record IsCalibration (platform : Platform) (input : CalibrateInput) (r : Report) : Type 0 where
  pub valid : Passes (validate_report r)
  pub protocol : r.protocol_digest ≡ input.protocol_digest
  pub dataset : r.dataset_digest ≡ input.gold.digest
  pub digest : report_digest platform r ≡ ok r.digest

abbrev pub CalibrateOutcome : Platform → CalibrateInput → Result CalibrationError Report → Type 0
CalibrateOutcome platform input (ok r) = IsCalibration platform input r
CalibrateOutcome platform input (err e) = IsLate e

check_ece-cases :
    (o : Option Float64) → Passes (check_score bad_ece o) ⊎ (check_score bad_ece o ≡ err bad_ece)
check_ece-cases none = inl refl
check_ece-cases (some x) = elim (Bool-cases (outside_unit x)) [
  | inl out ↦ inr (rw out refl)
  | inr within ↦ inl (rw within refl)
]

module _ (platform : Platform) (input : CalibrateInput) where
  stamped-IsCalibration :
      (r : Report) (digest : Bytes)
      → Passes (validate_report_body r)
      → r.protocol_digest ≡ input.protocol_digest
      → r.dataset_digest ≡ input.gold.digest
      → report_digest platform r ≡ ok digest
      → IsCalibration platform input (record r { digest = digest })
  unfolding validate_report validate_report_body report_digest report_input
  stamped-IsCalibration r digest body protocol dataset made =
      let hashed : is_sha256 digest ≡ true = sum-is_sha256 platform (report_input r) made in
      record {
        valid =
            (>>_iff (validate_report_body r) (ensure (is_sha256 digest) bad_report_digest)).1
              (body, (ensure_iff (is_sha256 digest) bad_report_digest).1 hashed);
        protocol = protocol;
        dataset = dataset;
        digest = made;
      }

  pub seal-outcome :
      (r : Report)
      → IsRated r
      → r.protocol_digest ≡ input.protocol_digest
      → r.dataset_digest ≡ input.gold.digest
      → CalibrateOutcome platform input (seal platform r)
  unfolding seal validate_report
  seal-outcome r h same_protocol same_dataset = elim (check_ece-cases r.ece) [
    | inr out ↦ rw (IsRated→body r h ∙ out, seal) tt
    | inl passed ↦ elim (Result-cases (report_digest platform r)) [
      | inr (e, failed) ↦ rw (IsRated→body r h ∙ passed, seal) (rw failed tt)
      | inl (digest, made) ↦
          rw (IsRated→body r h ∙ passed, seal)
            (rw made (
              stamped-IsCalibration r digest (IsRated→body r h ∙ passed) same_protocol same_dataset
                made))
    ]
  ]

-- The scores, whatever their results are.
unfoldable pub scores_of :
    Bool → (brier ece : Result ScoreError Float64) → Report → Result CalibrationError Report
scores_of empty brier ece r = if empty then ok r else do
  b ← wrap bad_scores brier
  e ← wrap bad_scores ece
  ok (record r { brier_score = some b; ece = some e })

-- A report with scores differs in the scores only.
pub scores_of-cases :
    (empty : Bool) (brier ece : Result ScoreError Float64) (r : Report) {s : Report}
    → scores_of empty brier ece r ≡ ok s
    → ((empty ≡ true) × (r ≡ s))
      ⊎ ((b : Float64) × (e : Float64) × (brier ≡ ok b)
          × (ece ≡ ok e)
          × (record r { brier_score = some b; ece = some e } ≡ s))
unfolding scores_of
scores_of-cases true brier ece r h = inl (refl, cc)
scores_of-cases false (err f) ece r h = cc
scores_of-cases false (ok b) (err f) r h = cc
scores_of-cases false (ok b) (ok e) r h = inr (b, e, refl, refl, cc)
