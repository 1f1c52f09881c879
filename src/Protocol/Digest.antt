-- ===== src/Protocol/Digest.antt =====
-- protocol/load.go: the semantic identity of a protocol.
use judgekit.Base.{Result}
use judgekit.Base.Text.{Bytes, bytes}
use judgekit.Base.Int.{ℤ}
use judgekit.Base.Float64.Rounding.{of_int}
use judgekit.CanonicalJson.{Platform, Json, num, str, obj, end, field, JsonError, sum}
use judgekit.CanonicalJson.Build.{some_field, list_field, text_field, strings, string_map}
use judgekit.Protocol.Types.{ModelIdentity, DecodingPolicy, RetryPolicy, Protocol}

unfoldable pub int_json : ℤ → Json
unfolding of_int
int_json n = num (of_int n)

unfoldable pub model_json : ModelIdentity → Json
unfolding text_field list_field string_map
model_json m = obj (
    field (bytes "provider") (str m.provider) (
      field (bytes "model") (str m.model) (
        text_field (bytes "revision") m.revision
          (list_field (bytes "settings") m.settings (string_map m.settings) end))))

decoding_json : DecodingPolicy → Json
unfolding some_field int_json
decoding_json d = obj (
    some_field num (bytes "temperature") d.temperature (
      some_field num (bytes "top_p") d.top_p (
        field (bytes "max_tokens") (int_json d.max_tokens)
          (some_field int_json (bytes "seed") d.seed end))))

retry_json : RetryPolicy → Json
unfolding int_json list_field strings
retry_json r = obj (
    field (bytes "maximum_attempts") (int_json r.maximum_attempts)
      (list_field (bytes "repair_kinds") r.repair_kinds (strings r.repair_kinds) end))

unfoldable pub protocol_json : Protocol → Json
unfolding model_json decoding_json retry_json string_map
protocol_json p = obj (
    field (bytes "api_version") (str p.api_version) (
      field (bytes "name") (str p.name) (
        field (bytes "measurement_digest") (str p.measurement_digest) (
          field (bytes "model") (model_json p.model) (
            field (bytes "prompt_digests") (string_map p.prompt_digests) (
              field (bytes "decoding") (decoding_json p.decoding) (
                field (bytes "evidence_order") (str p.evidence_order) (
                  field (bytes "parser_version") (str p.parser_version) (
                    field (bytes "aggregator_version") (str p.aggregator_version)
                      (field (bytes "retry") (retry_json p.retry) end))))))))))

module _ (platform : Platform) where
  unfoldable pub semantic_digest : Protocol → Result JsonError Bytes
  unfolding protocol_json sum
  semantic_digest p = sum platform (protocol_json p)
