-- ===== src/Judging/Types.antt =====
-- judging/interfaces.go, judging/cache.go, judging/repair.go and the data of judging/claimjudge.go.
-- `W` is the world outside: the generator, the cache and the clock read and change it.
use judgekit.Base.{Option, none, List, Result, ok, ◌++◌}
use judgekit.Base.Text.{Bytes, bytes}
use judgekit.Base.Maps.{Map}
use judgekit.Base.Int.{ℤ}
use judgekit.Base.Float64.{Float64}
use judgekit.Base.Time.{Time}
use judgekit.CanonicalJson.{JsonError}
use judgekit.Eval.Types.{Artifact, Instance}
use judgekit.Eval.Validate.{EvalError}
use judgekit.Spec.Types.{ContractDocument}
use judgekit.Spec.Validate.{SpecError}
use judgekit.Protocol.Types.{ModelIdentity, ProtocolDocument}
use judgekit.Protocol.Validate.{ProtocolError}
use judgekit.Assessment.Types.{Claim, PromptExecution}
use judgekit.Assessment.Validate.{AssessmentError}
use judgekit.StrictDecode.{StructuralError, JsonDecoder, error_text}
use judgekit.Judging.Effects.{Effect}

pub record GenerationRequest : Type 0 where
  pub prompt : Bytes
  pub media_type : Bytes
  pub protocol_id : Bytes
  pub step : Bytes

-- The duration is in nanoseconds.
pub record GenerationResult : Type 0 where
  pub text : Bytes
  pub input_tokens : ℤ
  pub output_tokens : ℤ
  pub model : ModelIdentity
  pub duration : ℤ

abbrev pub cache_use : Bytes
cache_use = bytes "use"

abbrev pub cache_bypass : Bytes
cache_bypass = bytes "bypass"

pub record CacheKey : Type 0 where
  pub protocol_digest : Bytes
  pub instance_digest : Bytes
  pub step : Bytes
  pub prompt_digest : Bytes

pub record Cache (W : Type 0) : Type 0 where
  pub load : CacheKey → Effect W Bytes (Option GenerationResult)
  pub store : CacheKey → GenerationResult → Effect W Bytes (Unit {0})

module _ (W : Type 0) where
  unfoldable pub noop_cache : Cache W
  noop_cache = record { load = λ key w. (ok none, w); store = λ key result w. (ok tt, w) }

pub record ClaimExtractionInput : Type 0 where
  pub id : Bytes
  pub input : Artifact
  pub candidate : Artifact
  pub metadata : Map Bytes

-- The prompts of an application; its errors are texts.
pub record ClaimProtocol : Type 0 where
  pub template_digest : Bytes → Result Bytes Bytes
  pub extract_prompt : ClaimExtractionInput → Result Bytes Bytes
  pub support_prompt : Instance → List Claim → Result Bytes Bytes

abbrev pub Repairer : Type 0
Repairer = Bytes → StructuralError → Result Bytes Bytes

unfoldable pub default_repairer : Repairer
unfolding error_text
default_repairer original failure = ok (
    original
    ++ bytes "\n\nYour previous response was structurally invalid: "
    ++ error_text failure
    ++ bytes ". Return one corrected JSON object that strictly follows the requested schema.")

pub record SupportVerdict : Type 0 where
  pub claim : ℤ
  pub label : Bytes
  pub evidence_ids : List Bytes
  pub reason : Bytes
  pub verdict_confidence : Option Float64
  pub entailed_probability : Option Float64

pub record DirectDimension : Type 0 where
  pub construct_id : Bytes
  pub value : Option Float64
  pub label : Bytes
  pub confidence : Option Float64
  pub evidence_ids : List Bytes
  pub reason : Bytes

pub record SupportPayload : Type 0 where
  pub verdicts : List SupportVerdict
  pub dimensions : List DirectDimension

-- A generator, prompts, a cache or a repairer that is nil is `none`. The payload of an extraction is
-- its list of statements. The clock is `Clock`, or `time.Now` if that is nil.
pub record ClaimJudge (W : Type 0) : Type 0 where
  pub contract : ContractDocument
  pub protocol : ProtocolDocument
  pub prompts : Option ClaimProtocol
  pub generate : Option (GenerationRequest → Effect W Bytes GenerationResult)
  pub cache : Option (Cache W)
  pub repairer : Option Repairer
  pub clock : W → Time × W
  pub extract_decoder : JsonDecoder (List Bytes)
  pub support_decoder : JsonDecoder SupportPayload

pub data JudgeError : Type 0 where
  bad_cache_mode no_generator no_prompts : JudgeError
  not_bound bad_instance : EvalError → JudgeError
  bad_contract : SpecError → JudgeError
  bad_protocol observed_model : ProtocolError → JudgeError
  digest_failed : JsonError → JudgeError
  contract_mismatch protocol_mismatch measurement_mismatch policy_mismatch : JudgeError
  no_step_digest template_mismatch : (step : Bytes) → JudgeError
  template_failed prompt_failed generate_failed load_failed store_failed repair_failed :
      Bytes → JudgeError
  forbidden_kind kind_not_allowed no_provenance : (item : Bytes) → JudgeError
  undecodable : StructuralError → JudgeError
  verdict_count wrong_verdict : JudgeError
  unknown_direct not_direct duplicate_direct empty_direct no_direct_value :
      (construct : Bytes) → JudgeError
  direct_out_of_range undeclared_direct_labels no_direct_label unknown_direct_label :
      (construct : Bytes) → JudgeError
  no_direct unsupported_method : (construct : Bytes) → JudgeError
  bad_report : AssessmentError → JudgeError

-- The outside world with the executions that `runCollector` has gathered.
pub record Run (W : Type 0) : Type 0 where
  pub world : W
  pub generations : List PromptExecution
