-- ===== src/Assessment/Validate.antt =====
-- assessment/validate.go, provenance.go and digest.go: the checks of a report, and `seal`.
-- `allowed` is the set of evidence ids that may be cited, `none` if it is nil.
use judgekit.Base.{
  Bool, true, false, not, ◌&&◌, ◌||◌, Option, none, some, List, [], ◌∷◌, map, length, eqb, is_empty,
  Result, ok, ◌>>=◌, ◌>>◌, ensure, refuse, wrap,
}
use judgekit.Base.Text.{Bytes, bytes, ◌==◌, is_blank, is_sha256}
use judgekit.Base.Keys.{Keys, has, scan}
use judgekit.Base.Maps.{Map, keys}
use judgekit.Base.Int.{pos, is_negative, lt_int, le_int}
use judgekit.Base.Float64.{Float64, is_nan, is_inf, outside}
use judgekit.Base.Time.{is_before}
use judgekit.CanonicalJson.{Platform, JsonError}
use judgekit.Identifier
use judgekit.Identifier.{IdentifierError}
use judgekit.Eval.Types.{Artifact, EvidenceItem}
use judgekit.Eval.Validate.{ArtifactError, validate_artifact}
use judgekit.Protocol.Validate.{ProtocolError, validate_observed_model}
use judgekit.Assessment.Types.{
  Span, Claim, ClaimAssessment, DimensionResult, PromptExecution, RunProvenance, Report,
  report_api_version, insufficient, valid_support_label,
}
use judgekit.Assessment.Digest.{report_digest}

pub data AssessmentError : Type 0 where
  negative_start empty_span no_text bad_importance bad_label no_reason : AssessmentError
  bad_id : IdentifierError → AssessmentError
  blank_evidence no_evidence bad_verdict_confidence bad_entailed_probability : AssessmentError
  repeated_evidence unknown_evidence duplicate_claim unknown_claim duplicate_result :
      Bytes → AssessmentError
  duplicate_dimension : Bytes → AssessmentError
  value_not_applicable value_not_finite bad_confidence unsupported_version : AssessmentError
  bad_instance_digest bad_protocol_digest finished_early missing_results : AssessmentError
  bad_provenance_digest provenance_protocol provenance_instance no_expected_model : AssessmentError
  bad_cache_mode no_templates bad_template no_generations no_step unknown_step : AssessmentError
  bad_attempt bad_rendered_prompt bad_usage bad_report_digest : AssessmentError
  bad_observed_model : ProtocolError → AssessmentError
  bad_raw_artifact : ArtifactError → AssessmentError
  seal_failed : JsonError → AssessmentError

unfoldable pub validate_span : Span → Result AssessmentError (Unit {0})
validate_span s = do
  refuse (lt_int s.start (pos 0)) negative_start
  refuse (le_int s.finish s.start) empty_span

abbrev pub validate_span? : Option Span → Result AssessmentError (Unit {0})
validate_span? none = ok tt
validate_span? (some s) = validate_span s

unfoldable pub validate_claim : Claim → Result AssessmentError (Unit {0})
unfolding validate_span
validate_claim c = do
  wrap bad_id (Identifier.validate c.id)
  refuse (is_blank c.text) no_text
  refuse (outside 0 1 c.importance) bad_importance
  validate_span? c.candidate_span

-- `allowedEvidence != nil` and the id is not in it.
abbrev pub is_foreign : Option Keys → Bytes → Bool
is_foreign none id = false
is_foreign (some allowed) id = not (has id allowed)

-- The loop over the evidence ids of a verdict, or of a dimension.
unfoldable pub check_citations : Option Keys → List Bytes → Result AssessmentError (Unit {0})
check_citations allowed =
    scan (λ id. id) (λ id. refuse (is_blank id) blank_evidence) repeated_evidence
      (λ id. refuse (is_foreign allowed id) (unknown_evidence id))

abbrev pub validate_probability :
    AssessmentError → Option Float64 → Result AssessmentError (Unit {0})
validate_probability e none = ok tt
validate_probability e (some v) = refuse (outside 0 1 v) e

unfoldable pub validate_claim_assessment :
    ClaimAssessment → Option Keys → Result AssessmentError (Unit {0})
unfolding check_citations valid_support_label
validate_claim_assessment a allowed = do
  wrap bad_id (Identifier.validate a.claim_id)
  ensure (valid_support_label a.label) bad_label
  refuse (is_blank a.reason) no_reason
  check_citations allowed a.evidence_ids
  refuse (not (a.label == insufficient) && is_empty a.evidence_ids) no_evidence
  validate_probability bad_verdict_confidence a.verdict_confidence
  validate_probability bad_entailed_probability a.entailed_probability

abbrev is_some_float : Option Float64 → Bool
is_some_float none = false
is_some_float (some _) = true

abbrev check_finite : Option Float64 → Result AssessmentError (Unit {0})
check_finite none = ok tt
check_finite (some v) = refuse (is_nan v || is_inf v) value_not_finite

unfoldable pub validate_dimension :
    DimensionResult → Option Keys → Result AssessmentError (Unit {0})
unfolding check_citations
validate_dimension d allowed = do
  wrap bad_id (Identifier.validate d.construct_id)
  refuse (not d.applicable && is_some_float d.value) value_not_applicable
  check_finite d.value
  validate_probability bad_confidence d.confidence
  check_citations allowed d.evidence_ids

unfoldable pub evidence_id_set : List EvidenceItem → Keys
evidence_id_set items = map (λ (e : EvidenceItem). e.id) items

unfoldable pub check_templates : Map Bytes → Result AssessmentError (Unit {0})
check_templates [] = ok tt
check_templates ((step, digest) ∷ m) = do
  refuse (is_blank step || not (is_sha256 digest)) bad_template
  check_templates m

unfoldable pub validate_generation :
    RunProvenance → PromptExecution → Result AssessmentError (Unit {0})
validate_generation p g = do
  refuse (is_blank g.step) no_step
  ensure (has g.step (keys p.prompt_template_digests)) unknown_step
  refuse (lt_int g.attempt (pos 1)) bad_attempt
  ensure (is_sha256 g.rendered_prompt_digest) bad_rendered_prompt
  refuse
      (is_negative g.input_tokens || (is_negative g.output_tokens || is_negative g.duration_nanos))
      bad_usage
  wrap bad_observed_model (validate_observed_model p.expected_model g.observed_model)

unfoldable pub validate_generations :
    RunProvenance → List PromptExecution → Result AssessmentError (Unit {0})
unfolding validate_generation
validate_generations p [] = ok tt
validate_generations p (g ∷ gs) = do validate_generation p g; validate_generations p gs

unfoldable pub validate_run_provenance :
    RunProvenance → (report_protocol report_instance : Bytes) → Result AssessmentError (Unit {0})
unfolding check_templates validate_generations
validate_run_provenance p report_protocol report_instance = do
  ensure
      (is_sha256 p.contract_digest && (is_sha256 p.protocol_digest && is_sha256 p.instance_digest))
      bad_provenance_digest
  ensure (p.protocol_digest == report_protocol) provenance_protocol
  ensure (p.instance_digest == report_instance) provenance_instance
  refuse (is_blank p.expected_model.provider || is_blank p.expected_model.model) no_expected_model
  ensure (p.cache_mode == bytes "use" || p.cache_mode == bytes "bypass") bad_cache_mode
  refuse (is_empty p.prompt_template_digests) no_templates
  check_templates p.prompt_template_digests
  refuse (is_empty p.generations) no_generations
  validate_generations p p.generations

abbrev pub claim_ids : List Claim → Keys
claim_ids cs = map (λ (c : Claim). c.id) cs

abbrev pub result_ids : List ClaimAssessment → Keys
result_ids rs = map (λ (a : ClaimAssessment). a.claim_id) rs

unfoldable pub check_claims : List Claim → Result AssessmentError (Unit {0})
check_claims = scan (λ (c : Claim). c.id) validate_claim (λ c. duplicate_claim c.id) (λ _. ok tt)

unfoldable pub check_results :
    Keys → Option Keys → List ClaimAssessment → Result AssessmentError (Unit {0})
check_results claims allowed =
    scan (λ (a : ClaimAssessment). a.claim_id)
      (λ a. do
        validate_claim_assessment a allowed
        ensure (has a.claim_id claims) (unknown_claim a.claim_id))
      (λ a. duplicate_result a.claim_id) (λ _. ok tt)

unfoldable pub check_dimensions :
    Option Keys → List DimensionResult → Result AssessmentError (Unit {0})
check_dimensions allowed =
    scan (λ (d : DimensionResult). d.construct_id) (λ d. validate_dimension d allowed)
      (λ d. duplicate_dimension d.construct_id) (λ _. ok tt)

module _ (platform : Platform) where
  unfoldable pub check_artifacts : List Artifact → Result AssessmentError (Unit {0})
  check_artifacts [] = ok tt
  check_artifacts (a ∷ rest) = do
    wrap bad_raw_artifact (validate_artifact platform a)
    check_artifacts rest

  -- The ids that the loops have recorded are distinct, so the sizes of the two maps are the lengths
  -- of the lists.
  unfoldable pub validate_report_body : Report → Option Keys → Result AssessmentError (Unit {0})
  unfolding validate_run_provenance check_claims check_results check_dimensions check_artifacts
  validate_report_body r allowed = do
    ensure (r.api_version == report_api_version) unsupported_version
    wrap bad_id (Identifier.validate r.instance_id)
    ensure (is_sha256 r.instance_digest) bad_instance_digest
    ensure (is_sha256 r.protocol_digest) bad_protocol_digest
    refuse (is_before r.finished_at r.started_at) finished_early
    validate_run_provenance r.provenance r.protocol_digest r.instance_digest
    check_claims r.claims
    check_results (claim_ids r.claims) allowed r.claim_results
    ensure (eqb (length r.claim_results) (length r.claims)) missing_results
    check_dimensions allowed r.dimensions
    check_artifacts r.raw_artifacts

  unfoldable pub validate_report : Report → Option Keys → Result AssessmentError (Unit {0})
  unfolding validate_report_body
  validate_report r allowed = do
    validate_report_body r allowed
    ensure (is_sha256 r.digest) bad_report_digest

  unfoldable pub seal : Report → Option Keys → Result AssessmentError Report
  unfolding validate_report_body
  seal r allowed = do
    validate_report_body r allowed
    digest ← wrap seal_failed (report_digest platform r)
    ok (record r { digest = digest })
