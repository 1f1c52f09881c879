-- ===== src/Judging/Attempts.antt =====
-- The retry policy bounds the generations of a run.
use judgekit.Base.{
  ensure, ◌<◌, Passes, >>=-eq-ok, wrap_iff, ℕ, zero, suc, ◌+◌, ◌*◌, ◌≤◌, ◌≡◌, refl, ap, inl, inr,
  some, List, [], ◌∷◌, ◌++◌, length, length-append, Result, ok, wrap, wrap-eq-ok, Option-cases,
  arith,
}
use judgekit.Base.Text.{Bytes, bytes, ◌==◌}
use judgekit.CanonicalJson.{Platform}
use judgekit.Eval.Types.{Instance}
use judgekit.Assessment.Types.{Claim, ClaimAssessment, DimensionResult, PromptExecution, Report}
use judgekit.Base.Int.{ℤ, pos, negsuc}
use judgekit.Spec.Digest.{semantic_digest}
use judgekit.Spec.Validate.{validate_contract}
use judgekit.Protocol.Validate.{validate}
use judgekit.Protocol.WellFormed.{IsPositive, IsProtocol, validate-IsProtocol}
use judgekit.Judging.Checks.{validate_for}
use judgekit.Base.Time.{Time}
use judgekit.Assessment.Validate.{evidence_id_set, seal}
use judgekit.Assessment.Sealing.{seal-valid}
use judgekit.StrictDecode.{JsonDecoder, decode_json_object_strict}
use judgekit.Judging.Effects.{Effect, bind_result-eq-ok, bind_result-state}
use judgekit.Judging.Types.{
  GenerationRequest, GenerationResult, ClaimProtocol, ClaimJudge, Run, JudgeError, bad_report,
  bad_contract, bad_protocol, digest_failed, contract_mismatch,
}
use judgekit.Judging.Generate.{attempts, generate_and_decode, retries, retries_of, or_repair-state}
use judgekit.Judging.Evaluate.{
  extract_claims, judge_support, draft_report, evaluate_bound, evaluate_checked,
  evaluate_with_options, mode_of,
}

-- At most `n` executions are collected.
abbrev pub AtMost : {W : Type 0} → ℕ → Run W → Type 0
AtMost n run = length run.generations ≤ n

one_more :
    (gs : List PromptExecution) (g : PromptExecution) (n m : ℕ)
    → length gs ≤ n
    → length (gs ++ g ∷ []) ≤ n + suc m
one_more gs g n m le = omega (arith, length-append gs (g ∷ []))

bounded :
    (n : ℕ) {gs executions kept : List PromptExecution}
    {r : Result JudgeError (List PromptExecution)}
    → r ≡ ok gs
    → r ≡ ok executions
    → kept ≡ executions
    → length gs ≤ 0 + n + n
    → length kept ≤ 2 * n
bounded n {gs} {executions} {kept} there all same le =
    let eq : kept ≡ gs = cc in rw eq (omega (arith, le))

shift : {k : ℕ} (n m : ℕ) → k ≤ n + 1 + suc m → k ≤ n + suc (suc m)
shift n m le = omega (arith, le)

module _ (platform : Platform) {W : Type 0} (j : ClaimJudge W)
    (generator : GenerationRequest → Effect W Bytes GenerationResult) where
  attempts-AtMost :
      {T : Type 0} (decoder : JsonDecoder T) (inst : Instance) (step mode : Bytes)
      (remaining attempt : ℕ) (current : Bytes) (n : ℕ) (run : Run W)
      → AtMost n run
      → AtMost
          (n + suc remaining)
          (attempts platform j generator decoder inst step mode remaining attempt current run).1
  unfolding attempts
  attempts-AtMost decoder inst step mode zero attempt current n run le =
      bind_result-state (AtMost (n + 1)) _ _ _ (omega (arith, le)) (λ r.
        bind_result-state (AtMost (n + 1)) _ _ _ (one_more run.generations _ n 0 le)
          (λ u. one_more run.generations _ n 0 le))
  attempts-AtMost {T} decoder inst step mode (suc remaining) attempt current n run le =
      bind_result-state (AtMost (n + suc (suc remaining))) _ _ _ (omega (arith, le)) (λ r.
        bind_result-state (AtMost (n + suc (suc remaining))) _ _ _
          (one_more run.generations _ n (suc remaining) le)
          (λ u.
            or_repair-state {T = T} (AtMost {W = W} (n + suc (suc remaining)))
              (decode_json_object_strict decoder r.0.text) _ _
              (one_more run.generations _ n (suc remaining) le)
              (λ failure.
                bind_result-state (AtMost {W = W} (n + suc (suc remaining))) _ _ _
                  (one_more run.generations _ n (suc remaining) le)
                  (λ repaired. shift n remaining (
                    attempts-AtMost decoder inst step mode remaining (suc attempt) repaired (n + 1)
                      _ (one_more run.generations _ n 0 le))))))

  generate_and_decode-AtMost :
      {T : Type 0} (decoder : JsonDecoder T) (inst : Instance) (step prompt mode : Bytes) (n : ℕ)
      (run : Run W)
      → AtMost n run
      → AtMost
          (n + suc (retries j))
          (generate_and_decode platform j generator decoder inst step prompt mode run).1
  unfolding generate_and_decode
  generate_and_decode-AtMost decoder inst step prompt mode n run le =
      attempts-AtMost decoder inst step mode (retries j) 1 prompt n run le

  extract_claims-AtMost :
      (prompts : ClaimProtocol) (inst : Instance) (mode : Bytes) (n : ℕ) (run : Run W)
      → AtMost n run
      → AtMost (n + suc (retries j)) (extract_claims platform j generator prompts inst mode run).1
  unfolding extract_claims
  extract_claims-AtMost prompts inst mode n run le =
      bind_result-state (AtMost (n + suc (retries j))) _ _ _ (omega (arith, le)) (λ prompt.
        bind_result-state (AtMost (n + suc (retries j))) _ _ _
          (generate_and_decode-AtMost j.extract_decoder inst (bytes "extract") prompt mode n run le)
          (λ statements.
            generate_and_decode-AtMost j.extract_decoder inst (bytes "extract") prompt mode n run
              le))

  judge_support-AtMost :
      (prompts : ClaimProtocol) (inst : Instance) (claims : List Claim) (mode : Bytes) (n : ℕ)
      (run : Run W)
      → AtMost n run
      → AtMost
          (n + suc (retries j))
          (judge_support platform j generator prompts inst claims mode run).1
  unfolding judge_support
  judge_support-AtMost prompts inst claims mode n run le =
      bind_result-state (AtMost (n + suc (retries j))) _ _ _ (omega (arith, le)) (λ prompt.
        let now =
          generate_and_decode-AtMost j.support_decoder inst (bytes "support") prompt mode n run
            le in
        bind_result-state (AtMost (n + suc (retries j))) _ _ _ now (λ payload.
          bind_result-state (AtMost (n + suc (retries j))) _ _ _ now
            (λ u. bind_result-state (AtMost (n + suc (retries j))) _ _ _ now (λ results. now))))

-- A bound by the attempts of a positive `MaximumAttempts`.
at_most_attempts :
    (attempts : ℤ) (m : ℕ)
    → IsPositive attempts
    → m ≤ 2 * suc (retries_of attempts)
    → (n : ℕ) × (attempts ≡ pos n) × (0 < n) × (m ≤ 2 * n)
at_most_attempts (pos zero) m positive le = absurd (positive refl)
at_most_attempts (negsuc _) m positive le = absurd positive
at_most_attempts (pos (suc n)) m positive le = (suc n, refl, omega arith, le)

module _ (platform : Platform) {W : Type 0} (j : ClaimJudge W) where
  sealed-generations :
      (inst : Instance) (mode : Bytes) (started finished : Time) (executions : List PromptExecution)
      (claims : List Claim) (results : List ClaimAssessment) (dims : List DimensionResult)
      {report : Report}
      → wrap bad_report (
          seal platform
            (draft_report platform j inst mode started finished executions claims results dims)
            (some (evidence_id_set inst.evidence.items)))
        ≡ ok report
      → report.provenance.generations ≡ executions
  unfolding draft_report
  sealed-generations inst mode started finished executions claims results dims e =
      let (_, same, _, _, _) =
        seal-valid platform
          (draft_report platform j inst mode started finished executions claims results dims)
          (some (evidence_id_set inst.evidence.items)) (wrap-eq-ok _ _ e) in
      ap (λ (r : Report). r.provenance.generations) same

  evaluate_bound-length :
      (generator : GenerationRequest → Effect W Bytes GenerationResult) (prompts : ClaimProtocol)
      (inst : Instance) (mode : Bytes) (run : Run W) {report : Report}
      → AtMost 0 run
      → (evaluate_bound platform j generator prompts inst mode run).0 ≡ ok report
      → length report.provenance.generations ≤ 2 * suc (retries j)
  unfolding evaluate_bound
  evaluate_bound-length generator prompts inst mode run le e =
      let (started, _, e₁) = bind_result-eq-ok _ _ _ e in
      let (claims, _, e₂) = bind_result-eq-ok _ _ _ e₁ in
      let (judged, _, e₃) = bind_result-eq-ok _ _ _ e₂ in
      let (dims, _, e₄) = bind_result-eq-ok _ _ _ e₃ in
      let (executions, all, e₅) = bind_result-eq-ok _ _ _ e₄ in
      let (finished, _, e₆) = bind_result-eq-ok _ _ _ e₅ in
      let kept = sealed-generations inst mode started finished executions claims judged.0 dims e₆ in
      let two =
        judge_support-AtMost platform j generator prompts inst claims mode (0 + suc (retries j)) _
          (extract_claims-AtMost platform j generator prompts inst mode 0 _ le) in
      bounded (suc (retries j)) refl all kept two

  validate_for-IsProtocol :
      (prompts : ClaimProtocol) (inst : Instance)
      → Passes (validate_for platform j prompts inst)
      → IsProtocol j.protocol.protocol
  unfolding validate_for
  validate_for-IsProtocol prompts inst e =
      let (_, _, e₁) = >>=-eq-ok (wrap bad_contract (validate_contract j.contract.contract)) _ e in
      let (found, _, e₂) =
        >>=-eq-ok (wrap digest_failed (semantic_digest platform j.contract.contract)) _ e₁ in
      let (_, _, e₃) = >>=-eq-ok (ensure (found == j.contract.digest) contract_mismatch) _ e₂ in
      let (_, valid, _) = >>=-eq-ok (wrap bad_protocol (validate j.protocol.protocol)) _ e₃ in
      (validate-IsProtocol j.protocol.protocol).0 ((wrap_iff bad_protocol _).0 valid)

  evaluate_checked-length :
      (inst : Instance) (mode : Bytes) (run : Run W) {report : Report}
      → AtMost 0 run
      → (evaluate_checked platform j inst mode run).0 ≡ ok report
      → IsPositive j.protocol.protocol.retry.maximum_attempts
        × (length report.provenance.generations ≤ 2 * suc (retries j))
  unfolding evaluate_checked
  evaluate_checked-length inst mode run le e = elim (Option-cases j.generate) [
    | inl missing ↦ absurd (cc (rw (missing, evaluate_checked) at e))
    | inr (generator, there) ↦ elim (Option-cases j.prompts) [
      | inl missing ↦ absurd (cc (rw (there, missing, evaluate_checked) at e))
      | inr (prompts, set) ↦
          let (_, valid, e₁) = bind_result-eq-ok _ _ _ (rw (there, set, evaluate_checked) at e) in
          (
            (validate_for-IsProtocol prompts inst valid).retry.attempts,
            evaluate_bound-length generator prompts inst mode run le e₁,
          )
    ]
  ]

  -- A run that succeeds has a positive `MaximumAttempts`, and its report lists at most twice as many
  -- generations as that number: the two steps make no more attempts than that each.
  pub evaluate_with_options-length-le :
      (inst : Instance) (mode : Bytes) (w : W) {report : Report}
      → (evaluate_with_options platform j inst mode w).0 ≡ ok report
      → (n : ℕ) × (j.protocol.protocol.retry.maximum_attempts ≡ pos n)
        × (0 < n)
        × (length report.provenance.generations ≤ 2 * n)
  unfolding evaluate_with_options
  evaluate_with_options-length-le inst mode w e =
      let (_, _, e₁) = bind_result-eq-ok _ _ _ e in
      let (bound, _, e₂) = bind_result-eq-ok _ _ _ e₁ in
      let (positive, le) =
        evaluate_checked-length bound (mode_of mode) (record { world = w; generations = [] })
          (omega arith) e₂ in
      at_most_attempts j.protocol.protocol.retry.maximum_attempts _ positive le
