-- ===== src/Spec/Digest.antt =====
-- spec/digest.go: the identities of a contract and of its evidence policy.
use judgekit.Base.{Result}
use judgekit.Base.Text.{Bytes, bytes}
use judgekit.CanonicalJson.{
  Platform, Json, bool, num, str, arr, obj, end, field, JsonError, sum, digest_text,
}
use judgekit.CanonicalJson.Build.{items, entries, some_field, list_field, text_field, strings}
use judgekit.Spec.Types.{Range, Construct, EvidencePolicy, Aggregation, MeasurementContract}

range_json : Range → Json
range_json r =
    obj (field (bytes "minimum") (num r.minimum) (field (bytes "maximum") (num r.maximum) end))

construct_json : Construct → Json
unfolding range_json some_field
construct_json c = obj (
    field (bytes "id") (str c.id) (
      field (bytes "name") (str c.name) (
        field (bytes "definition") (str c.definition) (
          field (bytes "unit") (str c.unit) (
            field (bytes "direction") (str c.direction)
              (some_field range_json (bytes "range") c.range end))))))

policy_json : EvidencePolicy → Json
unfolding strings
policy_json p = obj (
    field (bytes "allowed_kinds") (strings p.allowed_kinds) (
      field (bytes "forbidden_kinds") (strings p.forbidden_kinds)
        (field (bytes "require_provenance") (bool p.require_provenance) end)))

aggregation_json : Aggregation → Json
unfolding text_field
aggregation_json a = obj (
    field (bytes "method") (str a.method) (
      text_field (bytes "numerator") a.numerator (
        text_field (bytes "denominator") a.denominator
          (field (bytes "empty_policy") (str a.empty_policy) end))))

unfoldable pub contract_json : MeasurementContract → Json
unfolding construct_json policy_json aggregation_json items entries list_field strings
contract_json c = obj (
    field (bytes "api_version") (str c.api_version) (
      field (bytes "name") (str c.name) (
        field (bytes "constructs") (arr (items construct_json c.constructs)) (
          field (bytes "evidence_policy") (policy_json c.evidence_policy) (
            field (bytes "labels") (obj (entries strings c.labels)) (
              field (bytes "aggregations") (obj (entries aggregation_json c.aggregations)) (
                list_field (bytes "exclusions") c.exclusions (obj (entries strings c.exclusions))
                  end)))))))

module _ (platform : Platform) where
  unfoldable pub semantic_digest : MeasurementContract → Result JsonError Bytes
  unfolding contract_json sum
  semantic_digest c = sum platform (contract_json c)

  unfoldable pub evidence_policy_digest : EvidencePolicy → Result JsonError Bytes
  unfolding policy_json sum
  evidence_policy_digest p = sum platform (policy_json p)

  unfoldable pub byte_digest : Bytes → Bytes
  unfolding digest_text
  byte_digest raw = digest_text platform raw
