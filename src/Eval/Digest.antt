-- ===== src/Eval/Digest.antt =====
-- eval/digest.go and the constructors of eval/artifact.go: content identities. `evidence_input` and
-- `instance_input` are the digest inputs, which leave out the digest itself.
use judgekit.Base.{List, [], length, Result}
use judgekit.Base.Text.{Bytes, bytes}
use judgekit.Base.Int.{pos}
use judgekit.Base.Float64.Rounding.{of_int}
use judgekit.Base.Time.{Time}
use judgekit.CanonicalJson.{
  Platform, Json, num, str, arr, obj, end, field, JsonError, sum, digest_text,
}
use judgekit.CanonicalJson.Build.{items, some_field, list_field, text_field, strings, string_map}
use judgekit.Eval.Types.{Artifact, EvidenceItem, EvidenceSet, RequiredFact, Instance}

unfoldable pub artifact_json : Artifact → Json
unfolding text_field
artifact_json a = obj (
    field (bytes "media_type") (str a.media_type) (
      text_field (bytes "text") a.text (
        text_field (bytes "uri") a.uri (
          field (bytes "digest") (str a.digest)
            (field (bytes "size_bytes") (num (of_int a.size_bytes)) end)))))

fact_json : RequiredFact → Json
unfolding list_field strings
fact_json f = obj (
    field (bytes "id") (str f.id) (
      field (bytes "description") (str f.description) (
        field (bytes "importance") (num f.importance)
          (list_field (bytes "evidence_ids") f.evidence_ids (strings f.evidence_ids) end))))

module _ (platform : Platform) where
  time_json : Time → Json
  time_json t = str (platform.time_text t)

  unfoldable pub item_json : EvidenceItem → Json
  unfolding artifact_json time_json some_field text_field string_map
  item_json e = obj (
      field (bytes "id") (str e.id) (
        field (bytes "kind") (str e.kind) (
          field (bytes "content") (artifact_json e.content) (
            field (bytes "source_id") (str e.source_id) (
              some_field time_json (bytes "source_time") e.source_time (
                text_field (bytes "authority") e.authority
                  (field (bytes "provenance") (string_map e.provenance) end)))))))

  unfoldable pub evidence_input : List EvidenceItem → Bytes → Json
  unfolding items item_json
  evidence_input xs policy_digest = obj (
      field (bytes "items") (arr (items item_json xs))
        (field (bytes "policy_digest") (str policy_digest) end))

  set_json : EvidenceSet → Json
  unfolding items item_json
  set_json s = obj (
      field (bytes "items") (arr (items item_json s.items)) (
        field (bytes "policy_digest") (str s.policy_digest)
          (field (bytes "digest") (str s.digest) end)))

  unfoldable pub instance_input : Instance → Json
  unfolding artifact_json set_json fact_json items some_field list_field string_map
  instance_input i = obj (
      field (bytes "id") (str i.id) (
        field (bytes "input") (artifact_json i.input) (
          field (bytes "candidate") (artifact_json i.candidate) (
            field (bytes "evidence") (set_json i.evidence) (
              some_field artifact_json (bytes "reference") i.reference (
                list_field (bytes "required_facts") i.required_facts
                  (arr (items fact_json i.required_facts))
                  (list_field (bytes "metadata") i.metadata (string_map i.metadata) end)))))))

  -- The whole instance, its digest included.
  unfoldable pub instance_json : Instance → Json
  unfolding artifact_json set_json fact_json items some_field list_field string_map
  instance_json i = obj (
      field (bytes "id") (str i.id) (
        field (bytes "input") (artifact_json i.input) (
          field (bytes "candidate") (artifact_json i.candidate) (
            field (bytes "evidence") (set_json i.evidence) (
              some_field artifact_json (bytes "reference") i.reference (
                list_field (bytes "required_facts") i.required_facts
                  (arr (items fact_json i.required_facts))
                  (list_field (bytes "metadata") i.metadata (string_map i.metadata)
                    (field (bytes "digest") (str i.digest) end))))))))

  unfoldable pub evidence_set_digest : List EvidenceItem → Bytes → Result JsonError Bytes
  unfolding evidence_input sum
  evidence_set_digest xs policy_digest = sum platform (evidence_input xs policy_digest)

  unfoldable pub instance_digest : Instance → Result JsonError Bytes
  unfolding instance_input sum
  instance_digest i = sum platform (instance_input i)

  unfoldable pub text_content_digest : Bytes → Bytes
  unfolding digest_text
  text_content_digest text = digest_text platform text

  unfoldable pub new_text_artifact : (media_type text : Bytes) → Artifact
  unfolding text_content_digest
  new_text_artifact media_type text = record {
    media_type = media_type;
    text = text;
    uri = [];
    digest = text_content_digest text;
    size_bytes = pos (length text);
  }
