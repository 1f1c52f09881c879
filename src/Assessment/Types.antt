-- ===== src/Assessment/Types.antt =====
-- assessment/claim.go, support.go, dimension.go, provenance.go, report.go: what an evaluator produces.
use judgekit.Base.{Bool, List, [], ◌∷◌, Option}
use judgekit.Base.Text.{Bytes, bytes}
use judgekit.Base.Keys.{Keys, has}
use judgekit.Base.Maps.{Map}
use judgekit.Base.Int.{ℤ}
use judgekit.Base.Float64.{Float64}
use judgekit.Base.Time.{Time}
use judgekit.Eval.Types.{Artifact}
use judgekit.Protocol.Types.{ModelIdentity}

abbrev pub report_api_version : Bytes
report_api_version = bytes "judgekit.assessment/v1"

abbrev pub entailed : Bytes
entailed = bytes "entailed"

abbrev pub contradicted : Bytes
contradicted = bytes "contradicted"

abbrev pub insufficient : Bytes
insufficient = bytes "insufficient"

abbrev pub valid_support_labels : Keys
valid_support_labels = entailed ∷ contradicted ∷ insufficient ∷ []

unfoldable pub valid_support_label : Bytes → Bool
valid_support_label label = has label valid_support_labels

pub record Span : Type 0 where
  pub start : ℤ
  pub finish : ℤ

pub record Claim : Type 0 where
  pub id : Bytes
  pub text : Bytes
  pub importance : Float64
  pub requires_evidence : Bool
  pub candidate_span : Option Span

pub record ClaimAssessment : Type 0 where
  pub claim_id : Bytes
  pub label : Bytes
  pub evidence_ids : List Bytes
  pub verdict_confidence : Option Float64
  pub entailed_probability : Option Float64
  pub reason : Bytes

pub record DimensionResult : Type 0 where
  pub construct_id : Bytes
  pub applicable : Bool
  pub value : Option Float64
  pub label : Bytes
  pub confidence : Option Float64
  pub evidence_ids : List Bytes
  pub diagnostics : List Bytes

pub record PromptExecution : Type 0 where
  pub step : Bytes
  pub attempt : ℤ
  pub rendered_prompt_digest : Bytes
  pub observed_model : ModelIdentity
  pub cache_hit : Bool
  pub input_tokens : ℤ
  pub output_tokens : ℤ
  pub duration_nanos : ℤ

pub record RunProvenance : Type 0 where
  pub contract_digest : Bytes
  pub protocol_digest : Bytes
  pub instance_digest : Bytes
  pub prompt_template_digests : Map Bytes
  pub expected_model : ModelIdentity
  pub cache_mode : Bytes
  pub generations : List PromptExecution

pub record Report : Type 0 where
  pub api_version : Bytes
  pub instance_id : Bytes
  pub instance_digest : Bytes
  pub protocol_digest : Bytes
  pub claims : List Claim
  pub claim_results : List ClaimAssessment
  pub dimensions : List DimensionResult
  pub raw_artifacts : List Artifact
  pub provenance : RunProvenance
  pub started_at : Time
  pub finished_at : Time
  pub digest : Bytes
