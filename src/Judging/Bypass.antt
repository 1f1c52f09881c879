-- ===== src/Judging/Bypass.antt =====
-- The cache bypass: a run in this mode neither reads nor writes the cache.
use judgekit.Base.{ℕ, zero, suc, ◌≡◌, refl, ap, Option, List, [], Result, Option-cases, inl, inr}
use judgekit.Base.Text.{Bytes, bytes, ◌==◌}
use judgekit.CanonicalJson.{Platform}
use judgekit.Eval.Types.{Instance}
use judgekit.Assessment.Types.{Report, Claim}
use judgekit.StrictDecode.{JsonDecoder}
use judgekit.Judging.Effects.{Effect, bind_result-cong, step-cong}
use judgekit.Judging.Types.{
  GenerationRequest, GenerationResult, Cache, ClaimProtocol, ClaimJudge, Run, JudgeError,
  cache_bypass,
}
use judgekit.Judging.Generate.{
  generate_fresh, generate, attempts, generate_and_decode, or_repair-cong,
}
use judgekit.Judging.Checks.{validate_for, check_templates}
use judgekit.Judging.Evaluate.{
  extract_claims, judge_support, draft_report, evaluate_bound, evaluate_checked,
  evaluate_with_options,
}

-- The judge with another cache.
abbrev pub with_cache : {W : Type 0} → Option (Cache W) → ClaimJudge W → ClaimJudge W
with_cache cache j = record j { cache = cache }

module _ (platform : Platform) {W : Type 0} (j : ClaimJudge W) (cache : Option (Cache W)) where
  generate-with_cache :
      (generator : GenerationRequest → Effect W Bytes GenerationResult) (inst : Instance)
      (step prompt : Bytes) (w : W)
      → generate platform (with_cache cache j) generator inst step prompt cache_bypass w
        ≡ generate platform j generator inst step prompt cache_bypass w
  unfolding generate generate_fresh ◌==◌
  generate-with_cache generator inst step prompt w = refl

  attempts-with_cache :
      {T : Type 0} (generator : GenerationRequest → Effect W Bytes GenerationResult)
      (decoder : JsonDecoder T) (inst : Instance) (step : Bytes) (remaining attempt : ℕ)
      (current : Bytes) (run : Run W)
      → attempts platform
          (with_cache cache j)
          generator
          decoder
          inst
          step
          cache_bypass
          remaining
          attempt
          current
          run
        ≡ attempts platform j generator decoder inst step cache_bypass remaining attempt current run
  unfolding attempts generate generate_fresh ◌==◌
  attempts-with_cache generator decoder inst step zero attempt current run = refl
  attempts-with_cache {T} generator decoder inst step (suc remaining) attempt current run =
      bind_result-cong _
        (λ r s.
          bind_result-cong _
            (λ u t.
              or_repair-cong _
                (λ failure v.
                  bind_result-cong _
                    (λ repaired x.
                      attempts-with_cache generator decoder inst step remaining (suc attempt)
                        repaired x)
                    v)
                t)
            _)
        _

  generate_and_decode-with_cache :
      {T : Type 0} (generator : GenerationRequest → Effect W Bytes GenerationResult)
      (decoder : JsonDecoder T) (inst : Instance) (step prompt : Bytes) (run : Run W)
      → generate_and_decode platform
          (with_cache cache j)
          generator
          decoder
          inst
          step
          prompt
          cache_bypass
          run
        ≡ generate_and_decode platform j generator decoder inst step prompt cache_bypass run
  unfolding generate_and_decode
  generate_and_decode-with_cache generator decoder inst step prompt run =
      attempts-with_cache generator decoder inst step _ 1 prompt run

  extract_claims-with_cache :
      (generator : GenerationRequest → Effect W Bytes GenerationResult) (prompts : ClaimProtocol)
      (inst : Instance) (run : Run W)
      → extract_claims platform (with_cache cache j) generator prompts inst cache_bypass run
        ≡ extract_claims platform j generator prompts inst cache_bypass run
  unfolding extract_claims
  extract_claims-with_cache generator prompts inst run =
      bind_result-cong _
        (λ prompt s.
          step-cong
            (generate_and_decode-with_cache generator j.extract_decoder inst (bytes "extract")
              prompt s)
            (λ v t. refl))
        _

  judge_support-with_cache :
      (generator : GenerationRequest → Effect W Bytes GenerationResult) (prompts : ClaimProtocol)
      (inst : Instance) (claims : List Claim) (run : Run W)
      → judge_support platform (with_cache cache j) generator prompts inst claims cache_bypass run
        ≡ judge_support platform j generator prompts inst claims cache_bypass run
  unfolding judge_support
  judge_support-with_cache generator prompts inst claims run =
      bind_result-cong _
        (λ prompt s.
          step-cong
            (generate_and_decode-with_cache generator j.support_decoder inst (bytes "support")
              prompt s)
            (λ v t. refl))
        _

  evaluate_bound-with_cache :
      (generator : GenerationRequest → Effect W Bytes GenerationResult) (prompts : ClaimProtocol)
      (inst : Instance) (run : Run W)
      → evaluate_bound platform (with_cache cache j) generator prompts inst cache_bypass run
        ≡ evaluate_bound platform j generator prompts inst cache_bypass run
  unfolding evaluate_bound draft_report
  evaluate_bound-with_cache generator prompts inst run =
      bind_result-cong _
        (λ started s. step-cong (extract_claims-with_cache generator prompts inst s) (λ claims t.
          step-cong (judge_support-with_cache generator prompts inst claims t) (λ judged u. refl)))
        _

  evaluate_checked-with_cache :
      (inst : Instance) (run : Run W)
      → evaluate_checked platform (with_cache cache j) inst cache_bypass run
        ≡ evaluate_checked platform j inst cache_bypass run
  unfolding evaluate_checked validate_for check_templates
  evaluate_checked-with_cache inst run = elim (Option-cases j.generate) [
    | inl missing ↦ rw (missing, evaluate_checked) refl
    | inr (generator, there) ↦ elim (Option-cases j.prompts) [
      | inl missing ↦ rw (there, missing, evaluate_checked) refl
      | inr (prompts, set) ↦
          rw (there, set, evaluate_checked)
            (step-cong refl (λ v s. evaluate_bound-with_cache generator prompts inst s))
    ]
  ]

  -- In the bypass mode a run of the claim judge, its result as well as what it does to the world,
  -- is the same for every cache, and for none.
  pub evaluate_with_options-with_cache :
      (inst : Instance) (w : W)
      → evaluate_with_options platform (with_cache cache j) inst cache_bypass w
        ≡ evaluate_with_options platform j inst cache_bypass w
  unfolding evaluate_with_options
  evaluate_with_options-with_cache inst w =
      bind_result-cong _
        (λ v s.
          bind_result-cong _
            (λ bound t.
              ap (λ (r : Result JudgeError Report × Run W). (r.0, r.1.world))
                (evaluate_checked-with_cache bound (record { world = t; generations = [] })))
            _)
        _
