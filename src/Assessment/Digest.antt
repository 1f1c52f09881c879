-- ===== src/Assessment/Digest.antt =====
-- assessment/digest.go: the identity of a report. The digest input leaves out the digest itself.
use judgekit.Base.{if◌then◌else◌, Result}
use judgekit.Base.Text.{Bytes, bytes}
use judgekit.Base.Int.{ℤ, pos, eq_int}
use judgekit.Base.Time.{utc}
use judgekit.CanonicalJson.{
  Platform, Json, Fields, bool, num, str, arr, obj, end, field, JsonError, sum,
}
use judgekit.CanonicalJson.Build.{items, some_field, list_field, text_field, strings, string_map}
use judgekit.Eval.Digest.{artifact_json}
use judgekit.Protocol.Digest.{int_json, model_json}
use judgekit.Assessment.Types.{
  Span, Claim, ClaimAssessment, DimensionResult, PromptExecution, RunProvenance, Report,
}

-- An integer field with the option `omitempty`.
int_field : Bytes → ℤ → Fields → Fields
unfolding int_json
int_field k n fs = if eq_int n (pos 0) then fs else field k (int_json n) fs

span_json : Span → Json
unfolding int_json
span_json s =
    obj (field (bytes "start") (int_json s.start) (field (bytes "end") (int_json s.finish) end))

claim_json : Claim → Json
unfolding span_json some_field
claim_json c = obj (
    field (bytes "id") (str c.id) (
      field (bytes "text") (str c.text) (
        field (bytes "importance") (num c.importance) (
          field (bytes "requires_evidence") (bool c.requires_evidence)
            (some_field span_json (bytes "candidate_span") c.candidate_span end)))))

result_json : ClaimAssessment → Json
unfolding strings some_field
result_json a = obj (
    field (bytes "claim_id") (str a.claim_id) (
      field (bytes "label") (str a.label) (
        field (bytes "evidence_ids") (strings a.evidence_ids) (
          some_field num (bytes "verdict_confidence") a.verdict_confidence (
            some_field num (bytes "entailed_probability") a.entailed_probability
              (field (bytes "reason") (str a.reason) end))))))

unfoldable pub dimension_json : DimensionResult → Json
unfolding strings some_field list_field text_field
dimension_json d = obj (
    field (bytes "construct_id") (str d.construct_id) (
      field (bytes "applicable") (bool d.applicable) (
        some_field num (bytes "value") d.value (
          text_field (bytes "label") d.label (
            some_field num (bytes "confidence") d.confidence (
              list_field (bytes "evidence_ids") d.evidence_ids (strings d.evidence_ids)
                (list_field (bytes "diagnostics") d.diagnostics (strings d.diagnostics) end)))))))

execution_json : PromptExecution → Json
unfolding int_json int_field model_json
execution_json g = obj (
    field (bytes "step") (str g.step) (
      field (bytes "attempt") (int_json g.attempt) (
        field (bytes "rendered_prompt_digest") (str g.rendered_prompt_digest) (
          field (bytes "observed_model") (model_json g.observed_model) (
            field (bytes "cache_hit") (bool g.cache_hit) (
              int_field (bytes "input_tokens") g.input_tokens (
                int_field (bytes "output_tokens") g.output_tokens
                  (int_field (bytes "duration_nanos") g.duration_nanos end))))))))

provenance_json : RunProvenance → Json
unfolding string_map model_json items execution_json
provenance_json p = obj (
    field (bytes "contract_digest") (str p.contract_digest) (
      field (bytes "protocol_digest") (str p.protocol_digest) (
        field (bytes "instance_digest") (str p.instance_digest) (
          field (bytes "prompt_template_digests") (string_map p.prompt_template_digests) (
            field (bytes "expected_model") (model_json p.expected_model) (
              field (bytes "cache_mode") (str p.cache_mode)
                (field (bytes "generations") (arr (items execution_json p.generations)) end)))))))

module _ (platform : Platform) where
  unfoldable pub report_input : Report → Json
  unfolding items list_field claim_json result_json dimension_json artifact_json provenance_json
  report_input r = obj (
      field (bytes "api_version") (str r.api_version) (
        field (bytes "instance_id") (str r.instance_id) (
          field (bytes "instance_digest") (str r.instance_digest) (
            field (bytes "protocol_digest") (str r.protocol_digest) (
              list_field (bytes "claims") r.claims (arr (items claim_json r.claims)) (
                list_field (bytes "claim_results") r.claim_results
                  (arr (items result_json r.claim_results))
                  (field (bytes "dimensions") (arr (items dimension_json r.dimensions)) (
                    list_field (bytes "raw_artifacts") r.raw_artifacts
                      (arr (items artifact_json r.raw_artifacts))
                      (field (bytes "provenance") (provenance_json r.provenance) (
                        field (bytes "started_at") (str (platform.time_text (utc r.started_at))) (
                          field (bytes "finished_at") (str (platform.time_text (utc r.finished_at)))
                            end)))))))))))

  unfoldable pub report_digest : Report → Result JsonError Bytes
  unfolding report_input sum
  report_digest r = sum platform (report_input r)
