-- ===== src/Samples/Calibrated.antt =====
-- One gold claim, answered by a verdict with a probability of one half.
use mathlib.Core.List.{Perm}
use mathlib.Core.Quot
use judgekit.Base.{
  wrap, ◌≡◌, ◌↔◌, refl, ℕ, ◌^◌, ◌<◌, ◌≤◌, true, false, none, some, List, [], ◌∷◌, length, All, ok,
  Passes, arith,
}
use judgekit.Base.Text.{Bytes, bytes, is_sha256}
use judgekit.Base.Int.{pos}
use judgekit.Base.Float64.{Float64, fin, of_small, outside}
use judgekit.Assessment.Types.{Claim, ClaimAssessment, entailed}
use judgekit.Assessment.Types as Assessment
use judgekit.Calibration.Gold.{GoldClaim, GoldSet, validate_gold_set}
use judgekit.Calibration.Gold.Keys.{IsGoldSet, validate_gold_set_iff}
use judgekit.Calibration.Confusion.{
  matcher_of, confusion_from_claims, total, count_matched, sensitivity, specificity,
  false_support_rate, extraction_recall,
}
use judgekit.Calibration.Confusion.Bags.{bag_table, confusion_from_claims-bag}
use judgekit.Calibration.Confusion.Rates.{confusion_from_claims-rates}
use judgekit.Calibration.Scoring.{
  brier_score, expected_calibration_error, confidence_outcome_pairs, Bucket, empty_buckets,
  fill_buckets,
}
use judgekit.Calibration.Scoring.Pairs.{
  AllScored, status, as_ece, brier_score_iff, expected_calibration_error-status,
}
use judgekit.Calibration.Scoring.Brier.{brier_score-IsWithin}
use judgekit.Calibration.Scoring.Bins.{counts, corrects, ones, IsCounted, fill_buckets-counts}
use judgekit.Calibration.Report.{
  Report, CalibrateInput, report_api_version, check_reports, calibrate,
}
use judgekit.Calibration.Report.Valid.{CalibrateOutcome}
use judgekit.Calibration.Report.Outcome.{calibrate-CalibrateOutcome}
use judgekit.Calibration.Report.Equal.{IsReading, calibrate-IsReading_single}
use judgekit.Samples.Documents.{
  sample_platform, sample_digest, sample_claim, sample_verdict, sample_report,
}

abbrev half : Float64
half = fin false (2 ^ 1073)

abbrev sure : List Float64
sure = half ∷ []

abbrev happened : List Float64
happened = of_small 1 ∷ []

abbrev gold_claim : GoldClaim
gold_claim = record {
  instance_id = bytes "i1";
  claim = sample_claim;
  label = entailed;
  reviewer_ids = bytes "r1" ∷ bytes "r2" ∷ [];
  adjudicated = false;
}

abbrev gold_set : GoldSet
gold_set = record { claims = gold_claim ∷ []; dimensions = []; digest = sample_digest }

abbrev rated_verdict : ClaimAssessment
rated_verdict = record sample_verdict { entailed_probability = some half }

abbrev rated_report : Assessment.Report
rated_report = record (sample_report sample_digest) { claim_results = rated_verdict ∷ [] }

abbrev gold_input : CalibrateInput
gold_input = record {
  gold = gold_set;
  reports = (bytes "i1", rated_report) ∷ [];
  protocol_digest = sample_digest;
  bins = pos 0;
  matcher = none;
}

abbrev gold_report : Report
gold_report = record {
  api_version = report_api_version;
  protocol_digest = sample_digest;
  dataset_digest = sample_digest;
  extraction_recall = of_small 1;
  sensitivity = of_small 1;
  specificity = of_small 0;
  false_support_rate = of_small 0;
  brier_score = some (fin false (2 ^ 1072));
  ece = some half;
  by_group = [];
  digest = sample_digest;
}

gold_report-made : calibrate sample_platform gold_input ≡ ok gold_report
unfolding calibrate judgekit.Base.Keys.scan judgekit.Identifier.validate
    judgekit.Assessment.Validate.validate_claim judgekit.Base.Text.is_blank
    Assessment.valid_support_label judgekit.Base.Keys.has judgekit.Base.Text.has_prefix
    judgekit.CanonicalJson.marshal
gold_report-made = refl

gold_set-Passes : Passes (validate_gold_set gold_set)
unfolding validate_gold_set judgekit.Base.Keys.scan judgekit.Identifier.validate
    judgekit.Assessment.Validate.validate_claim judgekit.Base.Text.is_blank outside
    judgekit.Base.Float64.lt_float Assessment.valid_support_label judgekit.Base.Keys.has
    judgekit.Base.Text.has_prefix
gold_set-Passes = refl

reports-Passes : Passes (check_reports sample_digest gold_input.reports)
unfolding check_reports
reports-Passes = refl

half-scored : brier_score sure happened ≡ ok (fin false (2 ^ 1072))
unfolding brier_score judgekit.Base.Float64.lt_float
half-scored = refl

abbrev two_buckets : List Bucket
two_buckets =
    record { conf_sum = fin false 0; correct = 0; count = 0 }
    ∷ record { conf_sum = half; correct = 1; count = 1 }
    ∷ []

half-binned : fill_buckets 2 0 (empty_buckets 2) sure happened ≡ ok two_buckets
unfolding fill_buckets judgekit.Base.Float64.lt_float empty_buckets
half-binned = refl

validate_gold_set_iff_example : Passes (validate_gold_set gold_set) ↔ IsGoldSet gold_set
validate_gold_set_iff_example = validate_gold_set_iff gold_set

confusion_from_claims-bag_example :
    (confusion_from_claims (gold_claim ∷ []) (rated_verdict ∷ []) none
      ≡ bag_table (rated_verdict ∷ []) (matcher_of none) (Quot.mk (gold_claim ∷ [])))
    × (total (confusion_from_claims (gold_claim ∷ []) (rated_verdict ∷ []) none)
        ≡ count_matched (gold_claim ∷ []) (rated_verdict ∷ []) (matcher_of none))
    × ((other : List GoldClaim)
        → Perm (gold_claim ∷ []) other
        → confusion_from_claims other (rated_verdict ∷ []) none
          ≡ confusion_from_claims (gold_claim ∷ []) (rated_verdict ∷ []) none)
confusion_from_claims-bag_example =
    confusion_from_claims-bag (gold_claim ∷ []) (rated_verdict ∷ []) none

confusion_from_claims-rates_example :
    (total (confusion_from_claims (gold_claim ∷ []) (rated_verdict ∷ []) none) ≤ 1)
    × (outside 0 1 (sensitivity (confusion_from_claims (gold_claim ∷ []) (rated_verdict ∷ []) none))
        ≡ false)
    × (outside 0 1 (specificity (confusion_from_claims (gold_claim ∷ []) (rated_verdict ∷ []) none))
        ≡ false)
    × (outside 0 1
          (false_support_rate (confusion_from_claims (gold_claim ∷ []) (rated_verdict ∷ []) none))
        ≡ false)
    × (outside 0 1 (extraction_recall (gold_claim ∷ []) (rated_verdict ∷ []) none) ≡ false)
confusion_from_claims-rates_example =
    confusion_from_claims-rates (gold_claim ∷ []) (rated_verdict ∷ []) none

one-small : length sure < 2 ^ 53
one-small = omega arith

brier_score-IsWithin_example : outside 0 1 (fin false (2 ^ 1072)) ≡ false
brier_score-IsWithin_example = brier_score-IsWithin sure happened one-small half-scored

brier_score_iff_example :
    ((v : Float64) × (brier_score sure happened ≡ ok v))
    ↔ ((length sure ≡ length happened) × AllScored sure happened)
brier_score_iff_example = brier_score_iff sure happened

expected_calibration_error-status_example :
    status (expected_calibration_error sure happened (pos 2))
    ≡ wrap as_ece (status (brier_score sure happened))
expected_calibration_error-status_example =
    expected_calibration_error-status sure happened (pos 2) refl

fill_buckets-counts_example :
    (length two_buckets ≡ 2)
    × (counts two_buckets ≡ length sure)
    × (corrects two_buckets ≡ ones happened)
    × All IsCounted two_buckets
fill_buckets-counts_example = fill_buckets-counts 2 sure happened (omega arith) refl half-binned

claims-small : length gold_input.gold.claims < 2 ^ 53
claims-small = omega arith

calibrate-CalibrateOutcome_example :
    CalibrateOutcome sample_platform gold_input (calibrate sample_platform gold_input)
unfolding judgekit.Base.Text.has_prefix
calibrate-CalibrateOutcome_example =
    calibrate-CalibrateOutcome sample_platform gold_input gold_set-Passes refl reports-Passes
      claims-small

calibrate-IsReading_single_example :
    IsReading
      (extraction_recall (gold_claim ∷ []) (rated_verdict ∷ []) none)
      (confusion_from_claims (gold_claim ∷ []) (rated_verdict ∷ []) none)
      (confidence_outcome_pairs (gold_claim ∷ []) (rated_verdict ∷ []) none).0
      (confidence_outcome_pairs (gold_claim ∷ []) (rated_verdict ∷ []) none).1
      (pos 0)
      gold_report
unfolding judgekit.Base.Maps.find
calibrate-IsReading_single_example =
    calibrate-IsReading_single sample_platform gold_input (bytes "i1") rated_report refl (refl, tt)
      gold_report-made
