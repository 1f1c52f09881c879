-- ===== src/Judging/Checks.antt =====
-- judging/claimjudge.go: the claims of an extraction, the results of a support judgement, and
-- validateFor.
use judgekit.Base.{
  ℕ, zero, suc, ◌+◌, ◌/◌, ◌%◌, true, ◌&&◌, ◌||◌, none, some, List, [], ◌∷◌, ◌++◌, is_empty, eqb,
  Result, ok, err, wrap, ensure, refuse, if◌then◌else◌, ◌>>=◌, ◌>>◌,
}
use judgekit.Base.Text.{Bytes, bytes, ◌==◌, trim_space}
use judgekit.Base.Int.{pos, eq_int}
use judgekit.Base.Keys.{has}
use judgekit.Base.Maps.{find}
use judgekit.Base.Float64.{of_small}
use judgekit.CanonicalJson.{Platform}
use judgekit.Eval.Types.{EvidenceItem, EvidenceSet, Instance}
use judgekit.Eval.Validate.{validate_instance}
use judgekit.Spec.Types.{EvidencePolicy}
use judgekit.Spec.Digest.{evidence_policy_digest}
use judgekit.Spec.Digest as SpecDigest
use judgekit.Spec.Validate.{validate_contract}
use judgekit.Protocol.Digest as ProtocolDigest
use judgekit.Protocol.Validate as ProtocolValidate
use judgekit.Assessment.Types.{Claim, ClaimAssessment}
use judgekit.Judging.Types.{
  ClaimExtractionInput, ClaimProtocol, ClaimJudge, SupportVerdict, JudgeError, bad_instance,
  bad_contract, bad_protocol, digest_failed, contract_mismatch, protocol_mismatch,
  measurement_mismatch, policy_mismatch, no_step_digest, template_mismatch, template_failed,
  forbidden_kind, kind_not_allowed, no_provenance, wrong_verdict,
}

-- The decimal digits of a number, which has no more digits than itself, plus one for zero.
unfoldable pub decimal_by : ℕ → ℕ → Bytes
decimal_by zero n = []
decimal_by (suc f) n =
    let rest = decimal_by f (n / 10) in (if eqb (n / 10) 0 then [] else rest) ++ (n % 10 + 48) ∷ []

unfoldable pub decimal : ℕ → Bytes
unfolding decimal_by
decimal n = decimal_by (suc n) n

-- `claims[i].ID = fmt.Sprintf("c%d", i+1)` for the statements that are not blank.
unfoldable pub claims_from : ℕ → List Bytes → List Claim
unfolding decimal
claims_from i [] = []
claims_from i (s ∷ ss) =
    let skipped = claims_from i ss in
    let rest = claims_from (suc i) ss in
    if is_empty (trim_space s)
    then skipped
    else record {
      id = bytes "c" ++ decimal (suc i);
      text = trim_space s;
      importance = of_small 1;
      requires_evidence = true;
      candidate_span = none;
    }
      ∷ rest

-- The loop over the verdicts: the verdict at each place is on the claim there. There are as many
-- verdicts as claims.
unfoldable pub results_from :
    ℕ → List Claim → List SupportVerdict → Result JudgeError (List ClaimAssessment)
results_from i [] vs = ok []
results_from i (c ∷ cs) [] = ok []
results_from i (c ∷ cs) (v ∷ vs) =
    let rest = results_from (suc i) cs vs in
    do
      ensure (eq_int v.claim (pos (suc i))) wrong_verdict
      results ← rest
      ok (
          record {
            claim_id = c.id;
            label = v.label;
            evidence_ids = v.evidence_ids;
            verdict_confidence = v.verdict_confidence;
            entailed_probability = v.entailed_probability;
            reason = v.reason;
          }
          ∷ results)

unfoldable pub extraction_input : Instance → ClaimExtractionInput
extraction_input inst = record {
  id = inst.id;
  input = inst.input;
  candidate = inst.candidate;
  metadata = inst.metadata;
}

unfoldable pub check_items : EvidencePolicy → List EvidenceItem → Result JudgeError (Unit {0})
check_items policy [] = ok tt
check_items policy (e ∷ es) = do
  refuse (has e.kind policy.forbidden_kinds) (forbidden_kind e.id)
  ensure (is_empty policy.allowed_kinds || has e.kind policy.allowed_kinds) (kind_not_allowed e.id)
  refuse (policy.require_provenance && is_empty e.provenance) (no_provenance e.id)
  check_items policy es

module _ (platform : Platform) where
  unfoldable pub validate_evidence_policy :
      EvidencePolicy → EvidenceSet → Result JudgeError (Unit {0})
  unfolding check_items
  validate_evidence_policy policy set = do
    want ← wrap digest_failed (evidence_policy_digest platform policy)
    ensure (set.policy_digest == want) policy_mismatch
    check_items policy set.items

  unfoldable pub check_templates :
      {W : Type 0} → ClaimJudge W → ClaimProtocol → List Bytes → Result JudgeError (Unit {0})
  check_templates j prompts [] = ok tt
  check_templates j prompts (step ∷ steps) = do
    got ← wrap template_failed (prompts.template_digest step)
    elim (find step j.protocol.protocol.prompt_digests) [
      | none ↦ err (no_step_digest step)
      | some want ↦ ensure (got == want) (template_mismatch step)
    ]
    check_templates j prompts steps

  -- `validateFor`, once the generator and the prompts are there.
  unfoldable pub validate_for :
      {W : Type 0} → ClaimJudge W → ClaimProtocol → Instance → Result JudgeError (Unit {0})
  unfolding check_templates validate_evidence_policy
  validate_for j prompts inst = do
    wrap bad_contract (validate_contract j.contract.contract)
    contract_digest ← wrap digest_failed (SpecDigest.semantic_digest platform j.contract.contract)
    ensure (contract_digest == j.contract.digest) contract_mismatch
    wrap bad_protocol (ProtocolValidate.validate j.protocol.protocol)
    protocol_digest ←
        wrap digest_failed (ProtocolDigest.semantic_digest platform j.protocol.protocol)
    ensure (protocol_digest == j.protocol.digest) protocol_mismatch
    ensure (j.protocol.protocol.measurement_digest == j.contract.digest) measurement_mismatch
    check_templates j prompts (bytes "extract" ∷ bytes "support" ∷ [])
    wrap bad_instance (validate_instance platform inst)
    validate_evidence_policy j.contract.contract.evidence_policy inst.evidence
