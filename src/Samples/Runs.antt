-- ===== src/Samples/Runs.antt =====
-- The run of the sample judge.
use judgekit.Base.{ℕ, ◌<◌, ◌≡◌, refl, ok, [], ◌∷◌, map, some, suc, ◌*◌, ◌≤◌, length}
use judgekit.Assessment.Types.{DimensionResult}
use judgekit.Spec.Validate.{construct_ids}
use judgekit.Judging.Aggregate.{aggregate}
use judgekit.Judging.Aggregate.Dimensions.{aggregate-construct_ids}
use judgekit.Judging.Types.{cache_bypass}
use judgekit.Base.Int.{pos}
use judgekit.Judging.Bypass.{with_cache, evaluate_with_options-with_cache}
use judgekit.Judging.Attempts.{evaluate_with_options-length-le}
use judgekit.Base.Text.{Bytes, bytes}
use judgekit.Eval.Types.{Instance}
use judgekit.Eval.Validate.{bind_current_identity, validate_instance}
use judgekit.Judging.Evaluate.{evaluate_with_options, mode_of}
use judgekit.Judging.Sealed.{IsReportOf, evaluate_with_options-IsReportOf}
use judgekit.Samples.Documents.{sample_platform, sample_instance, sample_contract, sample_verdict}
use judgekit.Samples.Judge.{sample_judge, judge_report, broken_cache}

judge_report-made :
    (evaluate_with_options sample_platform sample_judge sample_instance [] tt).0 ≡ ok judge_report
unfolding judgekit.Assessment.Digest.report_digest judgekit.Assessment.Validate.validate_claim
    judgekit.Assessment.Validate.validate_claim_assessment
    judgekit.Assessment.Validate.validate_dimension judgekit.Assessment.Validate.evidence_id_set
    judgekit.Assessment.Validate.seal judgekit.Base.Float64.lt_float judgekit.Base.Float64.of_small
    judgekit.Base.Float64.outside judgekit.Base.Keys.has judgekit.Base.Keys.scan
    judgekit.Base.Maps.find judgekit.Base.Text.is_blank judgekit.Base.Text.split
    judgekit.CanonicalJson.marshal_fields judgekit.Eval.Digest.evidence_set_digest
    judgekit.Eval.Digest.instance_digest judgekit.Eval.Digest.text_content_digest
    judgekit.Eval.Validate.validate_required_fact judgekit.Eval.Validate.validate_artifact
    judgekit.Eval.Validate.validate_evidence_item judgekit.Eval.Validate.validate_evidence_set
    judgekit.Eval.Validate.validate_instance judgekit.Eval.Validate.bind_current_identity
    judgekit.Identifier.validate judgekit.Judging.Aggregate.aggregate
    judgekit.Judging.Checks.validate_for judgekit.Judging.Effects.bind_result
    judgekit.Judging.Evaluate.evaluate_with_options judgekit.Judging.Types.noop_cache
    judgekit.Protocol.Digest.semantic_digest judgekit.Protocol.Validate.validate
    judgekit.Protocol.Validate.validate_observed_model judgekit.Spec.Digest.semantic_digest
    judgekit.Spec.Digest.evidence_policy_digest judgekit.Spec.Validate.validate_contract
judge_report-made = refl

evaluate_with_options-IsReportOf_example :
    (bound : Instance) × (bind_current_identity sample_platform sample_instance ≡ ok bound)
    × IsReportOf sample_platform sample_judge bound (mode_of []) judge_report
evaluate_with_options-IsReportOf_example =
    evaluate_with_options-IsReportOf sample_platform sample_judge sample_instance [] tt
      judge_report-made

evaluate_with_options-with_cache_example :
    evaluate_with_options sample_platform
      (with_cache (some broken_cache) sample_judge)
      sample_instance
      cache_bypass
      tt
    ≡ evaluate_with_options sample_platform sample_judge sample_instance cache_bypass tt
evaluate_with_options-with_cache_example =
    evaluate_with_options-with_cache sample_platform sample_judge (some broken_cache)
      sample_instance tt

evaluate_with_options-length-le_example :
    (n : ℕ) × (sample_judge.protocol.protocol.retry.maximum_attempts ≡ pos n)
    × (0 < n)
    × (length judge_report.provenance.generations ≤ 2 * n)
evaluate_with_options-length-le_example =
    evaluate_with_options-length-le sample_platform sample_judge sample_instance [] tt
      judge_report-made

sample_dimensions-made :
    aggregate sample_contract (sample_verdict ∷ []) [] ≡ ok judge_report.dimensions
unfolding aggregate judgekit.Base.Maps.find judgekit.Spec.Validate.label_parts
    judgekit.Base.Text.split judgekit.Base.Text.trim_space
sample_dimensions-made = refl

aggregate-construct_ids_example :
    map (λ (d : DimensionResult). d.construct_id) judge_report.dimensions
    ≡ construct_ids sample_contract
aggregate-construct_ids_example =
    aggregate-construct_ids sample_contract (sample_verdict ∷ []) [] sample_dimensions-made
