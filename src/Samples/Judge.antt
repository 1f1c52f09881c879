-- ===== src/Samples/Judge.antt =====
-- A claim judge whose model answers at once: one claim, entailed by the piece of evidence.
use judgekit.Base.{true, false, none, some, [], ◌∷◌, ok, err}
use judgekit.Base.Text.{Bytes, bytes}
use judgekit.Base.Int.{pos}
use judgekit.Base.Float64.{of_small}
use judgekit.Protocol.Types.{Protocol}
use judgekit.Assessment.Types.{PromptExecution, Report, report_api_version, entailed}
use judgekit.StrictDecode.{at_end}
use judgekit.Judging.Types.{Cache, ClaimJudge, GenerationResult}
use judgekit.Samples.Documents.{
  sample_digest, sample_model, sample_contract, sample_protocol, sample_verdict, sample_time,
}

abbrev pub judge_protocol : Protocol
judge_protocol = record sample_protocol {
  prompt_digests = (bytes "extract", sample_digest) ∷ (bytes "support", sample_digest) ∷ [];
}

abbrev pub sample_answer : GenerationResult
sample_answer = record {
  text = bytes "{}";
  input_tokens = pos 1;
  output_tokens = pos 1;
  model = sample_model;
  duration = pos 1;
}

abbrev pub sample_judge : ClaimJudge (Unit {0})
sample_judge = record {
  contract = record {
    contract = sample_contract;
    digest = sample_digest;
    byte_digest = [];
    path = [];
  };
  protocol = record {
    protocol = judge_protocol;
    digest = sample_digest;
    byte_digest = [];
    path = [];
  };
  prompts = some record {
    template_digest = λ step. ok sample_digest;
    extract_prompt = λ input. ok (bytes "x");
    support_prompt = λ inst claims. ok (bytes "y");
  };
  generate = some (λ request w. (ok sample_answer, w));
  cache = none;
  repairer = none;
  clock = λ w. (sample_time, w);
  extract_decoder = record { first = λ s. ok (bytes "t" ∷ [], []); second = λ s. at_end };
  support_decoder = record {
    first = λ s. ok (
      record {
        verdicts =
            record {
              claim = pos 1;
              label = entailed;
              evidence_ids = bytes "e1" ∷ [];
              reason = bytes "r";
              verdict_confidence = none;
              entailed_probability = none;
            }
            ∷ [];
        dimensions = [];
      },
      [],
    );
    second = λ s. at_end;
  };
}

-- A cache that fails on every use.
abbrev pub broken_cache : Cache (Unit {0})
broken_cache = record {
  load = λ key w. (err (bytes "down"), w);
  store = λ key result w. (err (bytes "down"), w);
}

abbrev pub judge_execution : Bytes → PromptExecution
judge_execution step = record {
  step = step;
  attempt = pos 1;
  rendered_prompt_digest = sample_digest;
  observed_model = sample_model;
  cache_hit = false;
  input_tokens = pos 1;
  output_tokens = pos 1;
  duration_nanos = pos 1;
}

abbrev pub judge_report : Report
judge_report = record {
  api_version = report_api_version;
  instance_id = bytes "i1";
  instance_digest = sample_digest;
  protocol_digest = sample_digest;
  claims =
      record {
        id = bytes "c1";
        text = bytes "t";
        importance = of_small 1;
        requires_evidence = true;
        candidate_span = none;
      }
      ∷ [];
  claim_results = sample_verdict ∷ [];
  dimensions =
      record {
        construct_id = bytes "k1";
        applicable = false;
        value = none;
        label = [];
        confidence = none;
        evidence_ids = [];
        diagnostics = [];
      }
      ∷ [];
  raw_artifacts = [];
  provenance = record {
    contract_digest = sample_digest;
    protocol_digest = sample_digest;
    instance_digest = sample_digest;
    prompt_template_digests = judge_protocol.prompt_digests;
    expected_model = sample_model;
    cache_mode = bytes "use";
    generations = judge_execution (bytes "extract") ∷ judge_execution (bytes "support") ∷ [];
  };
  started_at = sample_time;
  finished_at = sample_time;
  digest = sample_digest;
}
