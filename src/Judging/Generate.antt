-- ===== src/Judging/Generate.antt =====
-- judging/claimjudge.go: generate and generateAndDecode.
use judgekit.Base.{
  ◌≡◌, refl, ℕ, zero, suc, Bool, true, false, none, some, [], ◌∷◌, ◌++◌, Result, ok, err, wrap,
  if◌then◌else◌,
}
use judgekit.Base.Text.{Bytes, ◌==◌}
use judgekit.Base.Int.{ℤ, pos}
use judgekit.CanonicalJson.{Platform, digest_text}
use judgekit.Eval.Types.{Instance}
use judgekit.Protocol.Validate.{validate_observed_model}
use judgekit.Assessment.Types.{PromptExecution}
use judgekit.StrictDecode.{StructuralError, JsonDecoder, decode_json_object_strict}
use judgekit.Judging.Effects.{Effect, ◌>>=◌, ◌>>◌, lift, wrap_error}
use judgekit.Judging.Types.{
  GenerationRequest, GenerationResult, CacheKey, Cache, ClaimJudge, Run, Repairer, default_repairer,
  noop_cache, cache_bypass, JudgeError, observed_model, generate_failed, load_failed, store_failed,
  repair_failed, undecodable,
}

-- What is decoded, or what is done on a structural failure.
unfoldable pub or_repair :
    {S T : Type 0}
    → Result StructuralError T
    → (StructuralError → Effect S JudgeError T)
    → Effect S JudgeError T
or_repair (ok value) repair = lift (ok value)
or_repair (err failure) repair = repair failure

pub or_repair-cong :
    {S T : Type 0} (r : Result StructuralError T) {f g : StructuralError → Effect S JudgeError T}
    → ((failure : StructuralError) (s : S) → f failure s ≡ g failure s)
    → (s : S) → or_repair r f s ≡ or_repair r g s
unfolding or_repair
or_repair-cong (ok value) same s = refl
or_repair-cong (err failure) same s = same failure s

-- `maxAttempts - 1`, for `MaximumAttempts` and at least one attempt.
abbrev pub retries_of : ℤ → ℕ
retries_of (pos (suc n)) = n
retries_of _ = 0

abbrev pub retries : {W : Type 0} → ClaimJudge W → ℕ
retries j = retries_of j.protocol.protocol.retry.maximum_attempts

pub or_repair-state :
    {S T : Type 0} (P : S → Type 0) (r : Result StructuralError T)
    (f : StructuralError → Effect S JudgeError T) (s : S)
    → P s
    → ((failure : StructuralError) → P (f failure s).1)
    → P (or_repair r f s).1
unfolding or_repair
or_repair-state P (ok value) f s before after = before
or_repair-state P (err failure) f s before after = after failure

module _ (platform : Platform) where
  unfoldable pub prompt_digest : Bytes → Bytes
  prompt_digest prompt = digest_text platform prompt

  abbrev pub cache_of : {W : Type 0} → ClaimJudge W → Cache W
  unfolding noop_cache
  cache_of {W} j = elim j.cache [ none ↦ noop_cache W | some c ↦ c ]

  abbrev pub repairer_of : {W : Type 0} → ClaimJudge W → Repairer
  repairer_of j = elim j.repairer [ none ↦ default_repairer | some r ↦ r ]

  module _ {W : Type 0} (j : ClaimJudge W)
      (generator : GenerationRequest → Effect W Bytes GenerationResult) where
    unfoldable pub cache_key : Instance → (step prompt : Bytes) → CacheKey
    unfolding prompt_digest
    cache_key inst step prompt = record {
      protocol_digest = j.protocol.digest;
      instance_digest = inst.digest;
      step = step;
      prompt_digest = prompt_digest prompt;
    }

    -- A generation that is not in the cache.
    unfoldable pub generate_fresh :
        Instance → (step prompt mode : Bytes) → Effect W JudgeError (GenerationResult × Bool)
    unfolding cache_key
    generate_fresh inst step prompt mode = do
      result ← wrap_error generate_failed (
          generator (record {
            prompt = prompt;
            media_type = [];
            protocol_id = j.protocol.protocol.name;
            step = step;
          }))
      lift (wrap observed_model (validate_observed_model j.protocol.protocol.model result.model))
      (if mode == cache_bypass
          then lift (ok tt)
          else wrap_error store_failed ((cache_of j).store (cache_key inst step prompt) result))
      lift (ok (result, false))

    unfoldable pub generate :
        Instance → (step prompt mode : Bytes) → Effect W JudgeError (GenerationResult × Bool)
    unfolding generate_fresh
    generate inst step prompt mode =
        if mode == cache_bypass
        then generate_fresh inst step prompt mode
        else (wrap_error load_failed ((cache_of j).load (cache_key inst step prompt)) >>= λ cached.
            elim cached [
              | none ↦ generate_fresh inst step prompt mode
              | some result ↦
                  (lift (
                      wrap observed_model
                        (validate_observed_model j.protocol.protocol.model result.model))
                    >> lift (ok (result, true)))
            ])

    -- Code that does not look at the collected executions.
    abbrev outside : {A : Type 0} → Effect W JudgeError A → Effect (Run W) JudgeError A
    outside m run = ((m run.world).0, record run { world = (m run.world).1 })

    abbrev collect : PromptExecution → Effect (Run W) JudgeError (Unit {0})
    collect g run = (ok tt, record run { generations = run.generations ++ g ∷ [] })

    unfoldable pub execution :
        (step : Bytes) (attempt : ℕ) (prompt : Bytes) → GenerationResult → Bool → PromptExecution
    unfolding prompt_digest
    execution step attempt prompt result cache_hit = record {
      step = step;
      attempt = pos attempt;
      rendered_prompt_digest = prompt_digest prompt;
      observed_model = result.model;
      cache_hit = cache_hit;
      input_tokens = result.input_tokens;
      output_tokens = result.output_tokens;
      duration_nanos = result.duration;
    }

    -- The loop from `attempt` on, with `remaining` attempts after it.
    unfoldable pub attempts :
        {T : Type 0}
        → JsonDecoder T
        → Instance
        → (step mode : Bytes) → (remaining attempt : ℕ) → (current : Bytes)
        → Effect (Run W) JudgeError T
    unfolding generate execution decode_json_object_strict or_repair
    attempts decoder inst step mode zero attempt current = do
      r ← outside (generate inst step current mode)
      collect (execution step attempt current r.0 r.1)
      lift (wrap undecodable (decode_json_object_strict decoder r.0.text))
    attempts decoder inst step mode (suc remaining) attempt current = do
      r ← outside (generate inst step current mode)
      collect (execution step attempt current r.0 r.1)
      or_repair (decode_json_object_strict decoder r.0.text) (λ failure.
          lift (wrap repair_failed (repairer_of j current failure)) >>= λ repaired.
          attempts decoder inst step mode remaining (suc attempt) repaired)

    unfoldable pub generate_and_decode :
        {T : Type 0}
        → JsonDecoder T
        → Instance
        → (step prompt mode : Bytes) → Effect (Run W) JudgeError T
    unfolding attempts
    generate_and_decode decoder inst step prompt mode =
        attempts decoder inst step mode (retries j) 1 prompt
