-- ===== src/Judging/Evaluate.antt =====
-- judging/claimjudge.go: extractClaims, judgeSupport and EvaluateWithOptions.
use judgekit.Base.{
  ◌||◌, none, some, List, [], is_empty, length, eqb, ok, err, wrap, ensure, if◌then◌else◌,
}
use judgekit.Base.Text.{Bytes, bytes, ◌==◌}
use judgekit.Base.Time.{Time}
use judgekit.CanonicalJson.{Platform}
use judgekit.Eval.Types.{Instance}
use judgekit.Eval.Validate.{bind_current_identity}
use judgekit.Assessment.Types.{
  Claim, ClaimAssessment, DimensionResult, PromptExecution, Report, report_api_version,
}
use judgekit.Assessment.Validate.{evidence_id_set, seal}
use judgekit.Judging.Effects.{Effect, ◌>>=◌, ◌>>◌, lift}
use judgekit.Judging.Types.{
  GenerationRequest, GenerationResult, ClaimProtocol, ClaimJudge, DirectDimension, Run, cache_use,
  cache_bypass, JudgeError, bad_cache_mode, no_generator, no_prompts, not_bound, prompt_failed,
  verdict_count, bad_report,
}
use judgekit.Judging.Aggregate.{aggregate}
use judgekit.Judging.Generate.{generate_and_decode}
use judgekit.Judging.Checks.{claims_from, results_from, extraction_input, validate_for}

-- An empty mode stands for `use`.
unfoldable pub mode_of : Bytes → Bytes
mode_of mode = if is_empty mode then cache_use else mode

module _ (platform : Platform) where
  module _ {W : Type 0} (j : ClaimJudge W) where
    -- The claims are those that the extraction prompt brought, with the evidence hidden.
    unfoldable pub extract_claims :
        (GenerationRequest → Effect W Bytes GenerationResult)
        → ClaimProtocol
        → Instance
        → (mode : Bytes) → Effect (Run W) JudgeError (List Claim)
    unfolding extraction_input generate_and_decode claims_from
    extract_claims generator prompts inst mode = do
      prompt ← lift (wrap prompt_failed (prompts.extract_prompt (extraction_input inst)))
      statements ←
          generate_and_decode platform j generator j.extract_decoder inst (bytes "extract") prompt
            mode
      lift (ok (claims_from 0 statements))

    unfoldable pub judge_support :
        (GenerationRequest → Effect W Bytes GenerationResult)
        → ClaimProtocol
        → Instance
        → List Claim
        → (mode : Bytes) → Effect (Run W) JudgeError (List ClaimAssessment × List DirectDimension)
    unfolding generate_and_decode results_from
    judge_support generator prompts inst claims mode = do
      prompt ← lift (wrap prompt_failed (prompts.support_prompt inst claims))
      payload ←
          generate_and_decode platform j generator j.support_decoder inst (bytes "support") prompt
            mode
      lift (ensure (eqb (length payload.verdicts) (length claims)) verdict_count)
      results ← lift (results_from 0 claims payload.verdicts)
      lift (ok (results, payload.dimensions))

    abbrev now : Effect (Run W) JudgeError Time
    now run = (ok (j.clock run.world).0, record run { world = (j.clock run.world).1 })

    abbrev generations : Effect (Run W) JudgeError (List PromptExecution)
    generations run = (ok run.generations, run)

    unfoldable pub draft_report :
        Instance
        → (mode : Bytes) → (started finished : Time) → List PromptExecution
        → List Claim
        → List ClaimAssessment
        → List DimensionResult
        → Report
    draft_report inst mode started finished executions claims results dims = record {
      api_version = report_api_version;
      instance_id = inst.id;
      instance_digest = inst.digest;
      protocol_digest = j.protocol.digest;
      claims = claims;
      claim_results = results;
      dimensions = dims;
      raw_artifacts = [];
      provenance = record {
        contract_digest = j.contract.digest;
        protocol_digest = j.protocol.digest;
        instance_digest = inst.digest;
        prompt_template_digests = j.protocol.protocol.prompt_digests;
        expected_model = j.protocol.protocol.model;
        cache_mode = mode;
        generations = executions;
      };
      started_at = started;
      finished_at = finished;
      digest = [];
    }

    -- The run on a bound instance, once the judge and the instance are checked.
    unfoldable pub evaluate_bound :
        (GenerationRequest → Effect W Bytes GenerationResult)
        → ClaimProtocol
        → Instance
        → (mode : Bytes) → Effect (Run W) JudgeError Report
    unfolding extract_claims judge_support draft_report
    evaluate_bound generator prompts inst mode = do
      started ← now
      claims ← extract_claims generator prompts inst mode
      judged ← judge_support generator prompts inst claims mode
      dims ← lift (aggregate j.contract.contract judged.0 judged.1)
      executions ← generations
      finished ← now
      lift (
          wrap bad_report (
            seal platform (draft_report inst mode started finished executions claims judged.0 dims)
              (some (evidence_id_set inst.evidence.items))))

    unfoldable pub evaluate_checked : Instance → (mode : Bytes) → Effect (Run W) JudgeError Report
    unfolding evaluate_bound
    evaluate_checked inst mode = elim j.generate [
      | none ↦ lift (err no_generator)
      | some generator ↦ elim j.prompts [
        | none ↦ lift (err no_prompts)
        | some prompts ↦
            lift (validate_for platform j prompts inst)
            >> evaluate_bound generator prompts inst mode
      ]
    ]

    -- A run with an empty collector.
    abbrev pub collecting : {A : Type 0} → Effect (Run W) JudgeError A → Effect W JudgeError A
    collecting m w = let r = m (record { world = w; generations = [] }) in (r.0, r.1.world)

    unfoldable pub evaluate_with_options : Instance → (mode : Bytes) → Effect W JudgeError Report
    unfolding evaluate_checked mode_of
    evaluate_with_options inst mode = do
      lift (ensure (mode_of mode == cache_use || mode_of mode == cache_bypass) bad_cache_mode)
      bound ← lift (wrap not_bound (bind_current_identity platform inst))
      collecting (evaluate_checked bound (mode_of mode))

    unfoldable pub evaluate : Instance → Effect W JudgeError Report
    unfolding evaluate_with_options
    evaluate inst = evaluate_with_options inst cache_use
