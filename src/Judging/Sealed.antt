-- ===== src/Judging/Sealed.antt =====
-- What a run of the claim judge that succeeds returns.
use judgekit.Base.{◌≡◌, ap, inl, inr, some, List, [], ok, wrap, wrap-eq-ok, Passes, Option-cases}
use judgekit.Base.Time.{Time}
use judgekit.Base.Text.{Bytes}
use judgekit.CanonicalJson.{Platform}
use judgekit.Eval.Types.{Instance}
use judgekit.Eval.Validate.{bind_current_identity}
use judgekit.Assessment.Types.{Report, Claim, ClaimAssessment, DimensionResult, PromptExecution}
use judgekit.Assessment.Validate.{validate_report, evidence_id_set, seal}
use judgekit.Assessment.Sealing.{seal-valid}
use judgekit.Judging.Effects.{Effect, bind_result-eq-ok}
use judgekit.Judging.Types.{
  GenerationRequest, GenerationResult, ClaimProtocol, ClaimJudge, Run, bad_report,
}
use judgekit.Judging.Evaluate.{
  draft_report, evaluate_bound, evaluate_checked, evaluate_with_options, mode_of,
}

-- The report of a run of `j` on `inst` in the given mode: it is valid against the evidence of the
-- instance, and carries the identities of instance, protocol and contract.
pub record IsReportOf {W : Type 0} (platform : Platform) (j : ClaimJudge W) (inst : Instance)
    (mode : Bytes) (report : Report) : Type 0 where
  pub valid : Passes (validate_report platform report (some (evidence_id_set inst.evidence.items)))
  pub instance_id : report.instance_id ≡ inst.id
  pub instance_digest : report.instance_digest ≡ inst.digest
  pub protocol_digest : report.protocol_digest ≡ j.protocol.digest
  pub contract_digest : report.provenance.contract_digest ≡ j.contract.digest
  pub model : report.provenance.expected_model ≡ j.protocol.protocol.model
  pub cache_mode : report.provenance.cache_mode ≡ mode

module _ (platform : Platform) {W : Type 0} (j : ClaimJudge W) where
  sealed-IsReportOf :
      (inst : Instance) (mode : Bytes) (started finished : Time) (executions : List PromptExecution)
      (claims : List Claim) (results : List ClaimAssessment) (dims : List DimensionResult)
      {report : Report}
      → wrap bad_report (
          seal platform
            (draft_report platform j inst mode started finished executions claims results dims)
            (some (evidence_id_set inst.evidence.items)))
        ≡ ok report
      → IsReportOf platform j inst mode report
  unfolding draft_report
  sealed-IsReportOf inst mode started finished executions claims results dims e =
      let allowed = some (evidence_id_set inst.evidence.items) in
      let draft =
        draft_report platform j inst mode started finished executions claims results dims in
      let (valid, same, _, _, _) = seal-valid platform draft allowed (wrap-eq-ok _ _ e) in
      record {
        valid = valid;
        instance_id = ap (λ (r : Report). r.instance_id) same;
        instance_digest = ap (λ (r : Report). r.instance_digest) same;
        protocol_digest = ap (λ (r : Report). r.protocol_digest) same;
        contract_digest = ap (λ (r : Report). r.provenance.contract_digest) same;
        model = ap (λ (r : Report). r.provenance.expected_model) same;
        cache_mode = ap (λ (r : Report). r.provenance.cache_mode) same;
      }

  evaluate_bound-IsReportOf :
      (generator : GenerationRequest → Effect W Bytes GenerationResult) (prompts : ClaimProtocol)
      (inst : Instance) (mode : Bytes) (run : Run W) {report : Report}
      → (evaluate_bound platform j generator prompts inst mode run).0 ≡ ok report
      → IsReportOf platform j inst mode report
  unfolding evaluate_bound
  evaluate_bound-IsReportOf generator prompts inst mode run e =
      let (started, _, e₁) = bind_result-eq-ok _ _ _ e in
      let (claims, _, e₂) = bind_result-eq-ok _ _ _ e₁ in
      let (judged, _, e₃) = bind_result-eq-ok _ _ _ e₂ in
      let (dims, _, e₄) = bind_result-eq-ok _ _ _ e₃ in
      let (executions, _, e₅) = bind_result-eq-ok _ _ _ e₄ in
      let (finished, _, e₆) = bind_result-eq-ok _ _ _ e₅ in
      sealed-IsReportOf inst mode started finished executions claims judged.0 dims e₆

  evaluate_checked-IsReportOf :
      (inst : Instance) (mode : Bytes) (run : Run W) {report : Report}
      → (evaluate_checked platform j inst mode run).0 ≡ ok report
      → IsReportOf platform j inst mode report
  unfolding evaluate_checked
  evaluate_checked-IsReportOf inst mode run e = elim (Option-cases j.generate) [
    | inl missing ↦ absurd (cc (rw (missing, evaluate_checked) at e))
    | inr (generator, there) ↦ elim (Option-cases j.prompts) [
      | inl missing ↦ absurd (cc (rw (there, missing, evaluate_checked) at e))
      | inr (prompts, set) ↦
          let (_, _, e₁) = bind_result-eq-ok _ _ _ (rw (there, set, evaluate_checked) at e) in
          evaluate_bound-IsReportOf generator prompts inst mode run e₁
    ]
  ]

  -- A run of the claim judge that succeeds has bound the instance to its current digests, and returns
  -- a sealed report that is valid against the evidence of the bound instance and carries the
  -- identities of that instance, of the protocol and its model, of the contract, and the cache mode.
  pub evaluate_with_options-IsReportOf :
      (inst : Instance) (mode : Bytes) (w : W) {report : Report}
      → (evaluate_with_options platform j inst mode w).0 ≡ ok report
      → (bound : Instance) × (bind_current_identity platform inst ≡ ok bound)
        × IsReportOf platform j bound (mode_of mode) report
  unfolding evaluate_with_options
  evaluate_with_options-IsReportOf inst mode w e =
      let (_, _, e₁) = bind_result-eq-ok _ _ _ e in
      let (bound, made, e₂) = bind_result-eq-ok _ _ _ e₁ in
      (
        bound,
        wrap-eq-ok _ _ made,
        evaluate_checked-IsReportOf bound (mode_of mode) (record { world = w; generations = [] })
            e₂,
      )
