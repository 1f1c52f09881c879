-- ===== src/Samples/Documents.antt =====
-- A hash with a constant value, an instance with one piece of evidence, a report on it, a contract,
-- a protocol, and a suite of two evaluators, the second of which reads the report of the first.
use judgekit.Base.{true, false, none, some, [], ◌∷◌, ok, err}
use judgekit.Base.Text.{Bytes, bytes}
use judgekit.Base.Int.{pos}
use judgekit.Base.Float64.{fin}
use judgekit.Base.Time.{Time}
use judgekit.Base.Maps.{find}
use judgekit.CanonicalJson.{Platform}
use judgekit.Eval.Types.{Artifact, EvidenceItem, EvidenceSet, RequiredFact, Instance}
use judgekit.Spec.Types.{
  MeasurementContract, contract_api_version, maximize, method_fraction, empty_na,
}
use judgekit.Protocol.Types.{ModelIdentity, Protocol, protocol_api_version}
use judgekit.Assessment.Types.{
  Claim, ClaimAssessment, DimensionResult, PromptExecution, RunProvenance, Report,
  report_api_version, entailed,
}
use judgekit.Suite.Types.{Evaluator, Suite, suite_api_version}

abbrev pub sample_platform : Platform
sample_platform = record {
  number_text = λ x. bytes "0";
  sha256_hex = λ s. bytes "00";
  time_text = λ t. bytes "0";
}

abbrev pub sample_digest : Bytes
sample_digest = bytes "sha256:00"

abbrev pub sample_artifact : Artifact
sample_artifact = record {
  media_type = bytes "a/b";
  text = bytes "hi";
  uri = [];
  digest = sample_digest;
  size_bytes = pos 2;
}

abbrev pub sample_item : EvidenceItem
sample_item = record {
  id = bytes "e1";
  kind = bytes "doc";
  content = sample_artifact;
  source_id = bytes "s";
  source_time = none;
  authority = [];
  provenance = [];
}

abbrev pub sample_set : EvidenceSet
sample_set = record {
  items = sample_item ∷ [];
  policy_digest = sample_digest;
  digest = sample_digest;
}

abbrev pub sample_fact : RequiredFact
sample_fact = record {
  id = bytes "f1";
  description = bytes "d";
  importance = fin false 0;
  evidence_ids = bytes "e1" ∷ [];
}

abbrev pub sample_instance : Instance
sample_instance = record {
  id = bytes "i1";
  input = sample_artifact;
  candidate = sample_artifact;
  evidence = sample_set;
  reference = none;
  required_facts = sample_fact ∷ [];
  metadata = [];
  digest = sample_digest;
}

abbrev pub sample_model : ModelIdentity
sample_model = record { provider = bytes "p"; model = bytes "m"; revision = []; settings = [] }

abbrev pub sample_claim : Claim
sample_claim = record {
  id = bytes "c1";
  text = bytes "t";
  importance = fin false 0;
  requires_evidence = true;
  candidate_span = none;
}

abbrev pub sample_verdict : ClaimAssessment
sample_verdict = record {
  claim_id = bytes "c1";
  label = entailed;
  evidence_ids = bytes "e1" ∷ [];
  verdict_confidence = none;
  entailed_probability = none;
  reason = bytes "r";
}

abbrev pub sample_execution : PromptExecution
sample_execution = record {
  step = bytes "s";
  attempt = pos 1;
  rendered_prompt_digest = sample_digest;
  observed_model = sample_model;
  cache_hit = false;
  input_tokens = pos 1;
  output_tokens = pos 1;
  duration_nanos = pos 1;
}

abbrev pub sample_provenance : RunProvenance
sample_provenance = record {
  contract_digest = sample_digest;
  protocol_digest = sample_digest;
  instance_digest = sample_digest;
  prompt_template_digests = (bytes "s", sample_digest) ∷ [];
  expected_model = sample_model;
  cache_mode = bytes "use";
  generations = sample_execution ∷ [];
}

abbrev pub sample_dimension : DimensionResult
sample_dimension = record {
  construct_id = bytes "k1";
  applicable = true;
  value = none;
  label = [];
  confidence = none;
  evidence_ids = bytes "e1" ∷ [];
  diagnostics = [];
}

abbrev pub sample_time : Time
sample_time = record { instant = pos 0; offset = pos 0; monotonic = none }

-- A report as the client leaves it (the digest is empty), or as it is sealed.
abbrev pub sample_report : (digest : Bytes) → Report
sample_report digest = record {
  api_version = report_api_version;
  instance_id = bytes "i1";
  instance_digest = sample_digest;
  protocol_digest = sample_digest;
  claims = sample_claim ∷ [];
  claim_results = sample_verdict ∷ [];
  dimensions = sample_dimension ∷ [];
  raw_artifacts = [];
  provenance = sample_provenance;
  started_at = sample_time;
  finished_at = sample_time;
  digest = digest;
}

abbrev pub sample_contract : MeasurementContract
sample_contract = record {
  api_version = contract_api_version;
  name = bytes "n";
  constructs =
      record {
        id = bytes "k1";
        name = bytes "n";
        definition = bytes "d";
        unit = bytes "u";
        direction = maximize;
        range = none;
      }
      ∷ [];
  evidence_policy = record {
    allowed_kinds = bytes "doc" ∷ [];
    forbidden_kinds = [];
    require_provenance = false;
  };
  labels = (bytes "k1", bytes "a" ∷ bytes "b" ∷ []) ∷ [];
  aggregations =
      (
        bytes "k1",
        record {
          method = method_fraction;
          numerator = bytes "a";
          denominator = bytes "a,b";
          empty_policy = empty_na;
        },
      )
      ∷ [];
  exclusions = [];
}

abbrev pub sample_protocol : Protocol
sample_protocol = record {
  api_version = protocol_api_version;
  name = bytes "p1";
  measurement_digest = sample_digest;
  model = sample_model;
  prompt_digests = (bytes "s", sample_digest) ∷ [];
  decoding = record { temperature = none; top_p = none; max_tokens = pos 1; seed = some (pos 7) };
  evidence_order = bytes "shuffled";
  parser_version = bytes "v";
  aggregator_version = bytes "v";
  retry = record { maximum_attempts = pos 1; repair_kinds = [] };
}

abbrev pub first_evaluator : Evaluator
first_evaluator = record {
  name = bytes "a";
  depends_on = [];
  evaluate = λ inst reports. ok (sample_report []);
}

-- It fails without the report of the first.
abbrev pub second_evaluator : Evaluator
second_evaluator = record {
  name = bytes "b";
  depends_on = bytes "a" ∷ [];
  evaluate = λ inst reports. elim (find (bytes "a") reports) [
    | none ↦ err (bytes "missing")
    | some r ↦ ok r
  ];
}

abbrev pub sample_suite : Suite
sample_suite = record {
  api_version = suite_api_version;
  name = bytes "s1";
  evaluators = some second_evaluator ∷ some first_evaluator ∷ [];
  digest = sample_digest;
}
