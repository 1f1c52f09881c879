-- ===== src/Samples/Checks.antt =====
-- The documents and the suite of the samples pass, and the theorems apply to them.
use mathlib.Core.List.{Subset, Nodup, Perm}
use judgekit.Base.{
  ◌⊎◌, ◌++◌, ◌≡◌, ◌↔◌, refl, Bool, true, false, Option, none, some, List, [], ◌∷◌, map, All, Result,
  ok, err, Passes, ℕ, ◌<◌, length, arith,
}
use judgekit.Base.Text.{Bytes, bytes, is_blank, is_sha256}
use judgekit.Identifier
use judgekit.Identifier.Shape.{IsIdentifier, validate_iff}
use judgekit.Eval.Types.{RequiredFact}
use judgekit.Eval.Digest.{text_content_digest, new_text_artifact}
use judgekit.Eval.Validate.{
  item_ids, validate_artifact, new_evidence_set, validate_evidence_set, validate_instance,
  bind_current_identity,
}
use judgekit.Eval.Artifacts.{IsInline, IsReference, validate_artifact_iff}
use judgekit.Eval.Sealing.{
  restamp, validate_artifact-new_text_artifact, new_evidence_set-valid, bind_current_identity-valid,
}
use judgekit.Eval.Binding.{bind_current_identity_iff}
use judgekit.Eval.References.{validate_instance-references}
use judgekit.Spec.Validate.{validate_contract}
use judgekit.Spec.WellFormed.{IsContract, validate_contract_iff}
use judgekit.Protocol.Validate
use judgekit.Protocol.WellFormed.{IsProtocol, validate-IsProtocol}
use judgekit.Assessment.Types.{DimensionResult}
use judgekit.Assessment.Digest.{report_digest}
use judgekit.Assessment.Validate.{
  claim_ids, result_ids, validate_report_body, validate_report, seal,
}
use judgekit.Assessment.Grounded.{
  IsGrounded, IsCitation, validate_report_body-one_result, validate_report_body-IsGrounded,
}
use judgekit.Assessment.Sealing.{seal-valid}
use judgekit.Suite.Graph.{Colors, search_cycle}
use judgekit.Suite.Graph.Order.{IsRanked}
use judgekit.Suite.Graph.Acyclic.{search_cycle_iff}
use judgekit.Suite.Validate.{validate, present, dependencies, names}
use judgekit.Suite.WellFormed.{IsSuite, validate-IsSuite, dependencies-Declared}
use judgekit.Suite.Run.{run}
use judgekit.Suite.Run.Total.{RunOutcome, run-RunOutcome}
use judgekit.StrictDecode.{is_break, trim_right, fence, strip_single_code_fence}
use judgekit.StrictDecode.Fence.{strip_single_code_fence-fenced}
use judgekit.Samples.Documents.{
  sample_platform, sample_digest, sample_artifact, sample_item, sample_set, sample_instance,
  sample_report, sample_contract, sample_protocol, sample_suite,
}

sample_artifact-Passes : Passes (validate_artifact sample_platform sample_artifact)
unfolding validate_artifact is_blank judgekit.Base.Text.has_prefix judgekit.Base.Text.◌==◌
    text_content_digest
sample_artifact-Passes = refl

hi_not_blank : is_blank (bytes "hi") ≡ false
unfolding is_blank
hi_not_blank = refl

sample_set-made : new_evidence_set sample_platform (sample_item ∷ []) sample_digest ≡ ok sample_set
unfolding new_evidence_set judgekit.Eval.Validate.validate_set_body judgekit.Base.Text.has_prefix
    judgekit.Base.Keys.scan judgekit.Eval.Validate.validate_evidence_item Identifier.validate
    is_blank validate_artifact judgekit.Base.Text.◌==◌ text_content_digest judgekit.Base.Keys.has
    judgekit.Eval.Digest.evidence_set_digest judgekit.CanonicalJson.marshal
    judgekit.Base.Float64.Rounding.of_int
sample_set-made = refl

sample_instance-Passes : Passes (validate_instance sample_platform sample_instance)
unfolding validate_instance Identifier.validate validate_artifact is_blank
    judgekit.Base.Text.has_prefix judgekit.Base.Text.◌==◌ text_content_digest validate_evidence_set
    judgekit.Base.Keys.scan judgekit.Eval.Validate.validate_evidence_item judgekit.Base.Keys.has
    judgekit.Eval.Digest.evidence_set_digest judgekit.CanonicalJson.marshal
    judgekit.Base.Float64.Rounding.of_int judgekit.Eval.Validate.validate_required_fact
    judgekit.Base.Float64.outside judgekit.Base.Float64.lt_float
    judgekit.Eval.Digest.instance_digest
sample_instance-Passes = refl

sample_instance-bound : bind_current_identity sample_platform sample_instance ≡ ok sample_instance
unfolding bind_current_identity validate_instance Identifier.validate validate_artifact is_blank
    judgekit.Base.Text.has_prefix judgekit.Base.Text.◌==◌ text_content_digest validate_evidence_set
    judgekit.Base.Keys.scan judgekit.Eval.Validate.validate_evidence_item judgekit.Base.Keys.has
    judgekit.Eval.Digest.evidence_set_digest judgekit.CanonicalJson.marshal
    judgekit.Base.Float64.Rounding.of_int judgekit.Eval.Validate.validate_required_fact
    judgekit.Base.Float64.outside judgekit.Base.Float64.lt_float
    judgekit.Eval.Digest.instance_digest
sample_instance-bound = refl

sample_report-Passes :
    Passes (validate_report_body sample_platform (sample_report []) (some (bytes "e1" ∷ [])))
unfolding validate_report_body judgekit.Base.Text.◌==◌ Identifier.validate
    judgekit.Base.Text.has_prefix is_blank judgekit.Base.Keys.has Validate.validate_observed_model
    judgekit.Base.Keys.scan judgekit.Assessment.Validate.validate_claim
    judgekit.Base.Float64.outside judgekit.Base.Float64.lt_float
    judgekit.Assessment.Validate.validate_claim_assessment
    judgekit.Assessment.Validate.validate_dimension
sample_report-Passes = refl

sample_report-sealed :
    seal sample_platform (sample_report []) (some (bytes "e1" ∷ []))
    ≡ ok (sample_report sample_digest)
unfolding seal judgekit.Base.Text.◌==◌ Identifier.validate judgekit.Base.Text.has_prefix is_blank
    judgekit.Base.Keys.has Validate.validate_observed_model judgekit.Base.Keys.scan
    judgekit.Assessment.Validate.validate_claim judgekit.Base.Float64.outside
    judgekit.Base.Float64.lt_float judgekit.Assessment.Validate.validate_claim_assessment
    judgekit.Assessment.Validate.validate_dimension report_digest judgekit.CanonicalJson.marshal
sample_report-sealed = refl

sample_suite-Passes : Passes (validate sample_suite)
unfolding validate judgekit.Base.Text.◌==◌ Identifier.validate judgekit.Base.Keys.scan
    judgekit.Base.Keys.has judgekit.Base.Maps.find judgekit.Suite.Validate.index
    judgekit.Base.Maps.put judgekit.Base.Text.has_prefix
sample_suite-Passes = refl

sample_suite-IsSuite : IsSuite sample_suite
sample_suite-IsSuite = ((validate-IsSuite sample_suite).0 sample_suite-Passes).0

validate_iff_example : Passes (Identifier.validate (bytes "c1")) ↔ IsIdentifier (bytes "c1")
validate_iff_example = validate_iff (bytes "c1")

validate_artifact-new_text_artifact_example :
    Passes (
      validate_artifact sample_platform
        (new_text_artifact sample_platform (bytes "a/b") (bytes "hi")))
    ↔ ((is_blank (bytes "a/b") ≡ false) × (is_blank (bytes "hi") ≡ false))
validate_artifact-new_text_artifact_example =
    validate_artifact-new_text_artifact sample_platform (λ content. omega arith) (bytes "a/b")
      (bytes "hi")

validate_artifact_iff_example :
    Passes (validate_artifact sample_platform sample_artifact)
    ↔ (IsInline sample_platform sample_artifact ⊎ IsReference sample_platform sample_artifact)
validate_artifact_iff_example = validate_artifact_iff sample_platform sample_artifact

new_evidence_set-valid_example :
    Passes (validate_evidence_set sample_platform sample_set)
    × (sample_set.items ≡ sample_item ∷ [])
    × (sample_set.policy_digest ≡ sample_digest)
new_evidence_set-valid_example =
    new_evidence_set-valid sample_platform (sample_item ∷ []) sample_digest sample_set-made

bind_current_identity-valid_example :
    Passes (validate_instance sample_platform sample_instance)
    × (sample_instance ≡ restamp sample_digest sample_digest sample_instance)
    × ((set_digest digest : Bytes)
        → bind_current_identity sample_platform (restamp set_digest digest sample_instance)
          ≡ ok sample_instance)
    × (bind_current_identity sample_platform sample_instance ≡ ok sample_instance)
bind_current_identity-valid_example =
    bind_current_identity-valid sample_platform sample_instance sample_instance-bound

validate_instance-references_example :
    Nodup (item_ids (sample_item ∷ []))
    × Nodup (map (λ (f : RequiredFact). f.id) sample_instance.required_facts)
    × All
        (λ (f : RequiredFact). Subset f.evidence_ids (item_ids (sample_item ∷ [])))
        sample_instance.required_facts
validate_instance-references_example =
    validate_instance-references sample_platform sample_instance sample_instance-Passes

validate_contract_iff_example :
    Passes (validate_contract sample_contract) ↔ IsContract sample_contract
validate_contract_iff_example = validate_contract_iff sample_contract

validate-IsProtocol_example :
    Passes (judgekit.Protocol.Validate.validate sample_protocol) ↔ IsProtocol sample_protocol
validate-IsProtocol_example = validate-IsProtocol sample_protocol

validate_report_body-one_result_example :
    Perm (bytes "c1" ∷ []) (bytes "c1" ∷ []) × Nodup (bytes "c1" ∷ [])
validate_report_body-one_result_example =
    validate_report_body-one_result sample_platform (sample_report []) (some (bytes "e1" ∷ []))
      sample_report-Passes

validate_report_body-IsGrounded_example :
    All (IsGrounded (bytes "e1" ∷ [])) (sample_report []).claim_results
    × All
        (λ (d : DimensionResult). IsCitation (bytes "e1" ∷ []) d.evidence_ids)
        (sample_report []).dimensions
validate_report_body-IsGrounded_example =
    validate_report_body-IsGrounded sample_platform (sample_report []) (bytes "e1" ∷ [])
      sample_report-Passes

seal-valid_example :
    Passes (validate_report sample_platform (sample_report sample_digest) (some (bytes "e1" ∷ [])))
    × (sample_report sample_digest ≡ sample_report sample_digest)
    × (report_digest sample_platform (sample_report []) ≡ ok sample_digest)
    × ((digest : Bytes)
        → seal sample_platform (sample_report digest) (some (bytes "e1" ∷ []))
          ≡ ok (sample_report sample_digest))
    × (seal sample_platform (sample_report sample_digest) (some (bytes "e1" ∷ []))
        ≡ ok (sample_report sample_digest))
seal-valid_example =
    seal-valid sample_platform (sample_report []) (some (bytes "e1" ∷ [])) sample_report-sealed

search_cycle_iff_example :
    ((colors : Colors) × (search_cycle
          (dependencies (present sample_suite.evaluators))
          (names (present sample_suite.evaluators))
        ≡ ok colors))
    ↔ ((rank : Bytes → ℕ) × IsRanked (dependencies (present sample_suite.evaluators)) rank)
search_cycle_iff_example =
    search_cycle_iff (dependencies (present sample_suite.evaluators))
      (dependencies-Declared (present sample_suite.evaluators) sample_suite-IsSuite.declared)

validate-IsSuite_example :
    Passes (validate sample_suite) ↔ (IsSuite sample_suite × (is_sha256 sample_suite.digest ≡ true))
validate-IsSuite_example = validate-IsSuite sample_suite

run-RunOutcome_example :
    RunOutcome sample_instance
      (present sample_suite.evaluators)
      (run sample_platform sample_suite sample_instance)
run-RunOutcome_example =
    run-RunOutcome sample_platform sample_suite sample_instance sample_suite-Passes
      sample_instance-Passes

strip_single_code_fence-fenced_example :
    strip_single_code_fence (fence ++ (bytes "json" ++ (10 ∷ ((bytes "{}" ++ (10 ∷ [])) ++ fence))))
    ≡ trim_right is_break (bytes "{}")
strip_single_code_fence-fenced_example =
    strip_single_code_fence-fenced (bytes "json") (bytes "{}") (refl, (refl, (refl, (refl, tt))))

bind_current_identity_iff_example :
    (bind_current_identity sample_platform sample_instance ≡ ok sample_instance)
    ↔ Passes (validate_instance sample_platform sample_instance)
bind_current_identity_iff_example = bind_current_identity_iff sample_platform sample_instance
