-- ===== src/Calibration/Report.antt =====
-- calibration/report.go: the calibration report of a protocol, its checks and its digest. The
-- reports by instance are a map; a matcher that is nil is `none`.
pub mod Single
pub mod Equal
pub mod Tallies
pub mod Valid
pub mod Outcome
use judgekit.Base.{
  ℕ, ◌+◌, Bool, true, false, not, ◌||◌, Option, none, some, List, [], ◌∷◌, ◌++◌, length, is_empty,
  ltb, if◌then◌else◌, Result, ok, err, ◌>>=◌, ◌>>◌, ensure, refuse, wrap,
}
use judgekit.Base.Text.{Bytes, bytes, ◌==◌, is_sha256}
use judgekit.Base.Maps.{Map, find}
use judgekit.Base.Int.{ℤ, pos, lt_int}
use judgekit.Base.Float64.{Float64, of_small, lt_float}
use judgekit.CanonicalJson.{Platform, Json, num, str, obj, end, field, JsonError, sum}
use judgekit.CanonicalJson.Build.{entries, some_field}
use judgekit.Protocol.Digest.{int_json}
use judgekit.Assessment.Types
use judgekit.Judging.Aggregate.{quotient}
use judgekit.Calibration.Gold.{GoldClaim, GoldSet, GoldError, validate_gold_set}
use judgekit.Calibration.Confusion.{
  Confusion, ClaimMatcher, add, empty_confusion, find_predicted, matcher_of, sensitivity,
  specificity, false_support_rate,
}
use judgekit.Calibration.Scoring.{ScoreError, brier_score, expected_calibration_error, outcome}

abbrev pub report_api_version : Bytes
report_api_version = bytes "judgekit.calibration/v1"

pub record SliceReport : Type 0 where
  pub count : ℤ
  pub extraction_recall : Float64
  pub sensitivity : Float64
  pub specificity : Float64
  pub false_support_rate : Float64
  pub brier_score : Option Float64
  pub ece : Option Float64

pub record Report : Type 0 where
  pub api_version : Bytes
  pub protocol_digest : Bytes
  pub dataset_digest : Bytes
  pub extraction_recall : Float64
  pub sensitivity : Float64
  pub specificity : Float64
  pub false_support_rate : Float64
  pub brier_score : Option Float64
  pub ece : Option Float64
  pub by_group : Map SliceReport
  pub digest : Bytes

pub record CalibrateInput : Type 0 where
  pub gold : GoldSet
  pub reports : Map Types.Report
  pub protocol_digest : Bytes
  pub bins : ℤ
  pub matcher : Option ClaimMatcher

pub data CalibrationError : Type 0 where
  bad_gold : GoldError → CalibrationError
  bad_protocol_digest bad_dataset_digest bad_report_digest unsupported_version : CalibrationError
  wrong_instance wrong_protocol : (instance_id : Bytes) → CalibrationError
  bad_recall bad_sensitivity bad_specificity bad_false_support : CalibrationError
  bad_brier bad_ece : CalibrationError
  bad_scores : ScoreError → CalibrationError
  seal_failed : JsonError → CalibrationError

-- `x < 0 || x > 1`
unfoldable pub outside_unit : Float64 → Bool
unfolding lt_float of_small
outside_unit x = lt_float x (of_small 0) || lt_float (of_small 1) x

abbrev pub check_score : CalibrationError → Option Float64 → Result CalibrationError (Unit {0})
check_score e none = ok tt
check_score e (some x) = refuse (outside_unit x) e

unfoldable pub validate_report_body : Report → Result CalibrationError (Unit {0})
unfolding outside_unit ◌==◌
validate_report_body r = do
  ensure (r.api_version == report_api_version) unsupported_version
  ensure (is_sha256 r.protocol_digest) bad_protocol_digest
  ensure (is_sha256 r.dataset_digest) bad_dataset_digest
  refuse (outside_unit r.extraction_recall) bad_recall
  refuse (outside_unit r.sensitivity) bad_sensitivity
  refuse (outside_unit r.specificity) bad_specificity
  refuse (outside_unit r.false_support_rate) bad_false_support
  check_score bad_brier r.brier_score
  check_score bad_ece r.ece

unfoldable pub validate_report : Report → Result CalibrationError (Unit {0})
unfolding validate_report_body
validate_report r = do validate_report_body r; ensure (is_sha256 r.digest) bad_report_digest

slice_json : SliceReport → Json
unfolding int_json some_field
slice_json s = obj (
    field (bytes "count") (int_json s.count) (
      field (bytes "extraction_recall") (num s.extraction_recall) (
        field (bytes "sensitivity") (num s.sensitivity) (
          field (bytes "specificity") (num s.specificity) (
            field (bytes "false_support_rate") (num s.false_support_rate) (
              some_field num (bytes "brier_score") s.brier_score
                (some_field num (bytes "ece") s.ece end)))))))

-- An empty map is left out.
groups_field : Map SliceReport → judgekit.CanonicalJson.Fields
unfolding entries slice_json
groups_field [] = end
groups_field (g ∷ gs) = field (bytes "by_group") (obj (entries slice_json (g ∷ gs))) end

unfoldable pub report_input : Report → Json
unfolding some_field groups_field
report_input r = obj (
    field (bytes "api_version") (str r.api_version) (
      field (bytes "protocol_digest") (str r.protocol_digest) (
        field (bytes "dataset_digest") (str r.dataset_digest) (
          field (bytes "extraction_recall") (num r.extraction_recall) (
            field (bytes "sensitivity") (num r.sensitivity) (
              field (bytes "specificity") (num r.specificity) (
                field (bytes "false_support_rate") (num r.false_support_rate) (
                  some_field num (bytes "brier_score") r.brier_score
                    (some_field num (bytes "ece") r.ece (groups_field r.by_group))))))))))

-- What the loop over the gold claims has gathered.
pub record Tally : Type 0 where
  pub confusion : Confusion
  pub matched : ℕ
  pub total : ℕ
  pub confidences : List Float64
  pub outcomes : List Float64

abbrev pub empty_tally : Tally
empty_tally = record {
  confusion = empty_confusion;
  matched = 0;
  total = 0;
  confidences = [];
  outcomes = [];
}

-- The pair that a verdict with a probability adds.
unfoldable pub add_pair : Option Float64 → GoldClaim → Tally → Tally
unfolding outcome
add_pair none g t = t
add_pair (some p) g t = record t {
  confidences = t.confidences ++ (p ∷ []);
  outcomes = t.outcomes ++ (outcome g ∷ []);
}

unfoldable pub add_match : Types.ClaimAssessment → GoldClaim → Tally → Tally
unfolding add add_pair
add_match verdict g t =
    add_pair verdict.entailed_probability g
      (record t { matched = t.matched + 1; confusion = add t.confusion g.label verdict.label })

unfoldable pub verdict_of :
    Map Types.Report → ClaimMatcher → GoldClaim → Option Types.ClaimAssessment
unfolding find find_predicted
verdict_of reports matches g = elim (find g.instance_id reports) [
  | none ↦ none
  | some report ↦ find_predicted report.claim_results g.claim matches
]

-- One round of the loop.
unfoldable pub tally_claim : Map Types.Report → ClaimMatcher → GoldClaim → Tally → Tally
unfolding verdict_of add_match
tally_claim reports matches g t =
    let counted = record t { total = t.total + 1 } in
    elim (verdict_of reports matches g) [
      | none ↦ counted
      | some verdict ↦ add_match verdict g counted
    ]

unfoldable pub tally : Map Types.Report → ClaimMatcher → Tally → List GoldClaim → Tally
unfolding tally_claim
tally reports matches t [] = t
tally reports matches t (g ∷ gs) = tally reports matches (tally_claim reports matches g t) gs

unfoldable pub check_reports :
    (protocol_digest : Bytes) → Map Types.Report → Result CalibrationError (Unit {0})
unfolding ◌==◌
check_reports protocol_digest [] = ok tt
check_reports protocol_digest ((id, report) ∷ rest) = do
  ensure (report.instance_id == id) (wrong_instance id)
  ensure (report.protocol_digest == protocol_digest) (wrong_protocol id)
  check_reports protocol_digest rest

abbrev pub max1 : ℕ → ℕ
max1 n = if ltb n 1 then 1 else n

-- `if in.Bins < 1 { in.Bins = 10 }`
abbrev pub bins_of : ℤ → ℤ
bins_of bins = if lt_int bins (pos 1) then pos 10 else bins

unfoldable pub draft_report : CalibrateInput → Tally → Report
unfolding quotient sensitivity specificity false_support_rate
draft_report input t = record {
  api_version = report_api_version;
  protocol_digest = input.protocol_digest;
  dataset_digest = input.gold.digest;
  extraction_recall = quotient t.matched (max1 t.total);
  sensitivity = sensitivity t.confusion;
  specificity = specificity t.confusion;
  false_support_rate = false_support_rate t.confusion;
  brier_score = none;
  ece = none;
  by_group = [];
  digest = [];
}

-- The scores, if there are probabilities.
unfoldable pub with_scores : CalibrateInput → Tally → Report → Result CalibrationError Report
unfolding brier_score expected_calibration_error
with_scores input t r = if is_empty t.confidences then ok r else do
  brier ← wrap bad_scores (brier_score t.confidences t.outcomes)
  ece ← wrap bad_scores (expected_calibration_error t.confidences t.outcomes (bins_of input.bins))
  ok (record r { brier_score = some brier; ece = some ece })

module _ (platform : Platform) where
  unfoldable pub report_digest : Report → Result JsonError Bytes
  unfolding sum report_input
  report_digest r = sum platform (report_input r)

  unfoldable pub seal : Report → Result CalibrationError Report
  unfolding validate_report_body report_digest
  seal r = do
    validate_report_body r
    digest ← wrap seal_failed (report_digest r)
    ok (record r { digest = digest })

  unfoldable pub calibrate : CalibrateInput → Result CalibrationError Report
  unfolding validate_gold_set check_reports tally draft_report with_scores seal matcher_of
  calibrate input = do
    wrap bad_gold (validate_gold_set input.gold)
    ensure (is_sha256 input.protocol_digest) bad_protocol_digest
    check_reports input.protocol_digest input.reports
    let t = tally input.reports (matcher_of input.matcher) empty_tally input.gold.claims in
        do r ← with_scores input t (draft_report input t); seal r
