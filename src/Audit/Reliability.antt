-- ===== src/Audit/Reliability.antt =====
-- audit/reliability.go: the report on how a judge answers pairs of instances.
pub mod Sums
pub mod Run
pub mod Fresh
pub mod Valid
pub mod Sealed
use judgekit.Base.{
  ℕ, ◌+◌, Bool, true, false, not, ◌&&◌, ◌||◌, Option, none, some, List, [], ◌∷◌, ◌++◌, is_empty,
  length, ltb, if◌then◌else◌, Result, ok, err, ◌>>=◌, ◌>>◌, ensure, refuse, wrap,
}
use judgekit.Base.Text.{Bytes, bytes, ◌==◌, is_sha256}
use judgekit.Base.Maps.{Map, find, put}
use judgekit.Base.Int.{ℤ, pos}
use judgekit.Base.Float64.{Float64, of_small, lt_float}
use judgekit.Base.Float64.Arithmetic
use judgekit.Base.Float64.Arithmetic.{sub, abs, div}
use judgekit.CanonicalJson.{
  Platform, Json, null, bool, num, str, arr, obj, end, field, JsonError, sum,
}
use judgekit.CanonicalJson.Build.{items, entries, some_field, text_field}
use judgekit.Protocol.Digest.{int_json}
use judgekit.Eval.Types.{Instance}
use judgekit.Assessment.Types
use judgekit.Assessment.Types.{DimensionResult}
use judgekit.Judging.Aggregate.{quotient}
use judgekit.Judging.Types.{cache_bypass}
use judgekit.Judging.Effects.{Effect}
use judgekit.Audit.Disagreement.{
  Disagreement, index_dims, index_claims, union_keys, dim_differs, differs_by, compare_reports,
}
use judgekit.Audit.Probes.{Probe, ProbeSet, ProbeError, validate_probe, validate_probe_set}
use judgekit.Audit.Panel.{count_matches}

abbrev pub report_api_version : Bytes
report_api_version = bytes "judgekit.reliability/v1"

pub record ReliabilityReport : Type 0 where
  pub api_version : Bytes
  pub protocol_digest : Bytes
  pub probe_set_digest : Bytes
  pub total_pairs : ℕ
  pub claim_label_agreement : Float64
  pub dimension_agreement : Map Float64
  pub mean_absolute_delta : Map Float64
  pub disagreements : List Disagreement
  pub digest : Bytes

-- `judging.Judge`, with `EvaluateWithOptions` if it is a `judging.ConfigurableJudge`. `W` is the
-- outside world, `E` the judge's errors.
pub record Judge (W E : Type 0) : Type 0 where
  pub evaluate : Instance → Effect W E Types.Report
  pub evaluate_with_options : Option (Instance → (mode : Bytes) → Effect W E Types.Report)

pub data ReliabilityError (E : Type 0) : Type 0 where
  bad_probe bad_probe_set : ProbeError → ReliabilityError E
  no_judge bad_protocol_digest bad_probe_set_digest unsupported_version : ReliabilityError E
  base_failed variant_failed : (probe_id : Bytes) → E → ReliabilityError E
  bad_claim_agreement bad_report_digest : ReliabilityError E
  bad_dimension_agreement negative_delta : (construct_id : Bytes) → ReliabilityError E
  seal_failed : JsonError → ReliabilityError E

disagreement_json : Disagreement → Json
unfolding text_field some_field
disagreement_json d = obj (
    field (bytes "probe_id") (str d.probe_id) (
      field (bytes "instance_id") (str d.instance_id) (
        field (bytes "kind") (str d.kind) (
          text_field (bytes "construct_id") d.construct_id (
            text_field (bytes "claim_id") d.claim_id (
              field (bytes "base_present") (bool d.base_present) (
                field (bytes "variant_present") (bool d.variant_present) (
                  text_field (bytes "base_label") d.base_label (
                    text_field (bytes "variant_label") d.variant_label (
                      some_field num (bytes "base_value") d.base_value
                        (some_field num (bytes "variant_value") d.variant_value end)))))))))))

-- The list begins as nil, which is written as null.
disagreements_json : List Disagreement → Json
unfolding items disagreement_json
disagreements_json [] = null
disagreements_json (d ∷ ds) = arr (items disagreement_json (d ∷ ds))

unfoldable pub reliability_input : ReliabilityReport → Json
unfolding int_json entries disagreements_json
reliability_input r = obj (
    field (bytes "api_version") (str r.api_version) (
      field (bytes "protocol_digest") (str r.protocol_digest) (
        field (bytes "probe_set_digest") (str r.probe_set_digest) (
          field (bytes "total_pairs") (int_json (pos r.total_pairs)) (
            field (bytes "claim_label_agreement") (num r.claim_label_agreement) (
              field (bytes "dimension_agreement") (obj (entries num r.dimension_agreement)) (
                field (bytes "mean_absolute_delta") (obj (entries num r.mean_absolute_delta))
                  (field (bytes "disagreements") (disagreements_json r.disagreements) end))))))))

-- `x < 0 || x > 1`
unfoldable pub outside_unit : Float64 → Bool
unfolding lt_float of_small
outside_unit x = lt_float x (of_small 0) || lt_float (of_small 1) x

module _ {E : Type 0} where
  unfoldable pub check_agreements : Map Float64 → Result (ReliabilityError E) (Unit {0})
  unfolding outside_unit
  check_agreements [] = ok tt
  check_agreements ((id, a) ∷ rest) =
      refuse (outside_unit a) (bad_dimension_agreement id) >> check_agreements rest

  unfoldable pub check_deltas : Map Float64 → Result (ReliabilityError E) (Unit {0})
  unfolding lt_float of_small
  check_deltas [] = ok tt
  check_deltas ((id, d) ∷ rest) =
      refuse (lt_float d (of_small 0)) (negative_delta id) >> check_deltas rest

  unfoldable pub validate_report : ReliabilityReport → Result (ReliabilityError E) (Unit {0})
  unfolding ◌==◌ check_agreements check_deltas outside_unit
  validate_report r =
      ensure (r.api_version == report_api_version) unsupported_version
      >> (ensure (is_sha256 r.protocol_digest) bad_protocol_digest
          >> (ensure (is_sha256 r.probe_set_digest) bad_probe_set_digest
              >> (refuse (outside_unit r.claim_label_agreement) bad_claim_agreement
                  >> (check_agreements r.dimension_agreement
                      >> (check_deltas r.mean_absolute_delta
                          >> ensure (is_sha256 r.digest) bad_report_digest)))))

  unfoldable pub seal_reliability :
      Platform → ReliabilityReport → Result (ReliabilityError E) ReliabilityReport
  unfolding reliability_input sum
  seal_reliability platform r = wrap seal_failed (sum platform (reliability_input r)) >>= λ digest.
      ok (record r { digest = digest })
