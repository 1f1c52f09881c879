-- ===== src/Samples/Stored.antt =====
-- Files that decode to the sample contract and the sample protocol, and a fake model whose answer is
-- kept in a memory cache.
use judgekit.Base.{◌≡◌, ◌≢◌, ◌↔◌, refl, true, false, none, some, [], ◌∷◌, Result, ok, err}
use judgekit.Base.Text.{Bytes, bytes}
use judgekit.Spec.Types.{MeasurementContract, ContractDocument}
use judgekit.Spec.Load as SpecLoad
use judgekit.Spec.Load.{load_contract, load_contract_iff}
use judgekit.Protocol.Types.{Protocol, ProtocolDocument}
use judgekit.Protocol.Load as ProtocolLoad
use judgekit.Protocol.Load.{load_protocol, load_protocol_iff}
use judgekit.Files.{FileDecoders}
use judgekit.StrictDecode.{at_end}
use judgekit.Judging.Generate.{generate}
use judgekit.Base.Int.{pos}
use judgekit.Judging.Types.{GenerationResult, CacheKey, ClaimJudge}
use judgekit.Judging.Memory.{MemoryStore, FakeGenerator, memory_cache, fake_generate}
use judgekit.Judging.Memory.Entries.{load-store}
use judgekit.Judging.Memory.Hits.{cached_generate, generate-again}
use judgekit.Samples.Documents.{
  sample_platform, sample_digest, sample_instance, sample_model, sample_contract, sample_protocol,
  sample_time,
}
use judgekit.Samples.Judge.{sample_judge, sample_answer}

abbrev read_any : Bytes → Result Bytes Bytes
read_any path = ok (bytes "{}")

abbrev contract_files : FileDecoders MeasurementContract
contract_files = record {
  from_json = record { first = λ raw. ok (sample_contract, []); second = λ rest. at_end };
  from_yaml = λ raw. ok sample_contract;
}

abbrev protocol_files : FileDecoders Protocol
protocol_files = record {
  from_json = record { first = λ raw. ok (sample_protocol, []); second = λ rest. at_end };
  from_yaml = λ raw. ok sample_protocol;
}

abbrev loaded_contract : ContractDocument
loaded_contract = record {
  contract = sample_contract;
  digest = sample_digest;
  byte_digest = sample_digest;
  path = bytes "a/c.YML";
}

abbrev loaded_protocol : ProtocolDocument
loaded_protocol = record {
  protocol = sample_protocol;
  digest = sample_digest;
  byte_digest = sample_digest;
  path = bytes "p.json";
}

contract-loaded :
    load_contract sample_platform contract_files read_any (bytes "a/c.YML") ≡ ok loaded_contract
unfolding load_contract judgekit.Files.decode_file judgekit.Base.Text.◌==◌
    judgekit.Spec.Validate.validate_contract judgekit.Base.Text.is_blank judgekit.Base.Keys.scan
    judgekit.Identifier.validate judgekit.Base.Keys.has judgekit.Base.Maps.find
    judgekit.Base.Text.split judgekit.CanonicalJson.marshal
contract-loaded = refl

load_contract_iff_example :
    (load_contract sample_platform contract_files read_any (bytes "a/c.YML") ≡ ok loaded_contract)
    ↔ ((raw : Bytes) × (read_any (bytes "a/c.YML") ≡ ok raw)
        × SpecLoad.IsDocument sample_platform contract_files (bytes "a/c.YML") raw loaded_contract)
load_contract_iff_example =
    load_contract_iff sample_platform contract_files read_any (bytes "a/c.YML") loaded_contract

load_protocol_iff_example :
    (load_protocol sample_platform protocol_files read_any (bytes "p.json") ≡ ok loaded_protocol)
    ↔ ((raw : Bytes) × (read_any (bytes "p.json") ≡ ok raw)
        × ProtocolLoad.IsDocument sample_platform protocol_files
            (bytes "p.json")
            raw
            loaded_protocol)
load_protocol_iff_example =
    load_protocol_iff sample_platform protocol_files read_any (bytes "p.json") loaded_protocol

abbrev recoded : GenerationResult → Result Bytes GenerationResult
recoded r = ok r

abbrev key_at : Bytes → CacheKey
key_at step = record {
  protocol_digest = sample_digest;
  instance_digest = sample_digest;
  step = step;
  prompt_digest = sample_digest;
}

keys-differ : key_at [] ≢ key_at (bytes "a")
keys-differ e = cc

load-store_example :
    (((memory_cache recoded (Unit {0})).load
        (key_at (bytes "a"))
        ((memory_cache recoded (Unit {0})).store (key_at (bytes "a")) sample_answer ([], tt)).1).0
      ≡ ok (some sample_answer))
    × (((memory_cache recoded (Unit {0})).load
          (key_at [])
          ((memory_cache recoded (Unit {0})).store (key_at (bytes "a")) sample_answer ([], tt)).1).0
        ≡ ((memory_cache recoded (Unit {0})).load (key_at []) ([], tt)).0)
load-store_example =
    load-store recoded (Unit {0}) (key_at (bytes "a")) (key_at []) sample_answer [] tt refl
      keys-differ

abbrev storing_judge : ClaimJudge (MemoryStore × FakeGenerator)
storing_judge = record {
  contract = sample_judge.contract;
  protocol = sample_judge.protocol;
  prompts = sample_judge.prompts;
  generate = none;
  cache = none;
  repairer = none;
  clock = λ w. (sample_time, w);
  extract_decoder = sample_judge.extract_decoder;
  support_decoder = sample_judge.support_decoder;
}

abbrev fake : FakeGenerator
fake = record {
  responses = (bytes "extract", bytes "{}") ∷ [];
  calls = [];
  model = sample_model;
  failure = none;
}

abbrev answered : GenerationResult
answered = record sample_answer { input_tokens = pos 0; output_tokens = pos 0; duration = pos 0 }

-- After the first generation: one entry, and one call.
abbrev after_first : MemoryStore × FakeGenerator
after_first = (
  (
    record {
      protocol_digest = sample_digest;
      instance_digest = sample_digest;
      step = bytes "extract";
      prompt_digest = sample_digest;
    },
    answered,
  )
      ∷ [],
  record fake {
    calls =
        record {
          prompt = bytes "x";
          media_type = [];
          protocol_id = sample_protocol.name;
          step = bytes "extract";
        }
        ∷ [];
  },
)

first-made :
    cached_generate sample_platform recoded storing_judge fake_generate sample_instance
      (bytes "extract")
      (bytes "x")
      []
      ([], fake)
    ≡ (ok (answered, false), after_first)
unfolding generate fake_generate judgekit.Base.Text.◌==◌ judgekit.Judging.Effects.bind_result
    judgekit.Judging.Types.noop_cache memory_cache judgekit.Base.Maps.find
    judgekit.Protocol.Validate.validate_observed_model judgekit.Base.Text.is_blank
    judgekit.CanonicalJson.digest_text
first-made = refl

generate-again_example :
    cached_generate sample_platform recoded storing_judge fake_generate sample_instance
      (bytes "extract")
      (bytes "x")
      []
      after_first
    ≡ (ok (answered, true), after_first)
unfolding judgekit.Base.Text.◌==◌
generate-again_example =
    generate-again sample_platform recoded storing_judge fake_generate sample_instance
      (bytes "extract") (bytes "x") [] [] fake refl refl first-made
