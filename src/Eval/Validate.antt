-- ===== src/Eval/Validate.antt =====
-- eval/validate.go and eval/bind.go: what an artifact, an evidence set and an instance have to
-- satisfy, and the constructors that check and seal them.
use judgekit.Base.{
  Bool, true, false, not, ◌&&◌, Option, none, some, List, [], ◌∷◌, map, length, if◌then◌else◌, leb,
  Result, ok, ◌>>=◌, ◌>>◌, ensure, refuse, wrap,
}
use judgekit.Base.Text.{Bytes, ◌==◌, is_blank, is_sha256, sha256_prefix}
use judgekit.Base.Keys.{Keys, has, scan}
use judgekit.Base.Maps.{Map}
use judgekit.Base.Int.{pos, is_negative, eq_int}
use judgekit.Base.Float64.{outside}
use judgekit.Base.Time.{Time, is_zero}
use judgekit.CanonicalJson.{Platform, JsonError}
use judgekit.Identifier
use judgekit.Identifier.{IdentifierError}
use judgekit.Eval.Types.{Artifact, EvidenceItem, EvidenceSet, RequiredFact, Instance}
use judgekit.Eval.Digest.{evidence_set_digest, instance_digest, text_content_digest}

pub data ArtifactError : Type 0 where
  no_media_type text_or_uri bad_digest negative_size digest_mismatch size_mismatch : ArtifactError

pub data EvalError : Type 0 where
  bad_id : IdentifierError → EvalError
  bad_artifact : ArtifactError → EvalError
  no_kind no_source_id zero_source_time blank_provenance_key blank_provenance_value : EvalError
  bad_policy_digest bad_set_digest set_digest_mismatch : EvalError
  duplicate_item duplicate_fact blank_evidence_id duplicate_evidence_id unknown_evidence :
      Bytes → EvalError
  no_description bad_importance blank_metadata_key : EvalError
  bad_instance_digest instance_digest_mismatch : EvalError
  digest_failed : JsonError → EvalError

unfoldable pub check_provenance : Map Bytes → Result EvalError (Unit {0})
check_provenance [] = ok tt
check_provenance ((k, v) ∷ m) = do
  refuse (is_blank k) blank_provenance_key
  refuse (is_blank v) blank_provenance_value
  check_provenance m

unfoldable pub check_metadata : Map Bytes → Result EvalError (Unit {0})
check_metadata [] = ok tt
check_metadata ((k, v) ∷ m) = do refuse (is_blank k) blank_metadata_key; check_metadata m

-- `source_time` may be absent, and must not be the zero time.
abbrev source_time_zero : Option Time → Bool
source_time_zero none = false
source_time_zero (some t) = is_zero t

abbrev is_text : Artifact → Bool
is_text a = not (is_blank a.text)

abbrev same : Bool → Bool → Bool
same true b = b
same false b = not b

abbrev pub item_ids : List EvidenceItem → Keys
item_ids xs = map (λ (e : EvidenceItem). e.id) xs

-- The loop over the evidence ids of a fact.
unfoldable pub check_evidence_ids : List Bytes → Result EvalError (Unit {0})
check_evidence_ids =
    scan (λ id. id) (λ id. refuse (is_blank id) (blank_evidence_id id)) duplicate_evidence_id
      (λ _. ok tt)

unfoldable pub validate_required_fact : RequiredFact → Result EvalError (Unit {0})
unfolding check_evidence_ids
validate_required_fact f = do
  wrap bad_id (Identifier.validate f.id)
  refuse (is_blank f.description) no_description
  refuse (outside 0 1 f.importance) bad_importance
  check_evidence_ids f.evidence_ids

unfoldable pub check_known : Keys → List Bytes → Result EvalError (Unit {0})
check_known known [] = ok tt
check_known known (id ∷ ids) = do ensure (has id known) (unknown_evidence id); check_known known ids

unfoldable pub validate_facts : Keys → List RequiredFact → Result EvalError (Unit {0})
unfolding check_known
validate_facts known =
    scan (λ (f : RequiredFact). f.id) validate_required_fact (λ f. duplicate_fact f.id)
      (λ f. check_known known f.evidence_ids)

module _ (platform : Platform) where
  -- The checks of inline text: its digest and its size.
  unfoldable pub validate_text : Artifact → Result ArtifactError (Unit {0})
  validate_text a = do
    ensure (a.digest == text_content_digest platform a.text) digest_mismatch
    ensure (eq_int a.size_bytes (pos (length a.text))) size_mismatch

  unfoldable pub validate_artifact : Artifact → Result ArtifactError (Unit {0})
  unfolding validate_text
  validate_artifact a = do
    refuse (is_blank a.media_type) no_media_type
    refuse (same (is_text a) (not (is_blank a.uri))) text_or_uri
    ensure (is_sha256 a.digest && not (leb (length a.digest) (length sha256_prefix))) bad_digest
    refuse (is_negative a.size_bytes) negative_size
    if is_text a then validate_text a else ok tt

  unfoldable pub validate_evidence_item : EvidenceItem → Result EvalError (Unit {0})
  unfolding check_provenance
  validate_evidence_item e = do
    wrap bad_id (Identifier.validate e.id)
    refuse (is_blank e.kind) no_kind
    wrap bad_artifact (validate_artifact e.content)
    refuse (is_blank e.source_id) no_source_id
    refuse (source_time_zero e.source_time) zero_source_time
    check_provenance e.provenance

  unfoldable pub validate_items : List EvidenceItem → Result EvalError (Unit {0})
  validate_items =
      scan (λ (e : EvidenceItem). e.id) validate_evidence_item (λ e. duplicate_item e.id)
        (λ _. ok tt)

  unfoldable pub validate_set_body : EvidenceSet → Result EvalError (Unit {0})
  unfolding validate_items
  validate_set_body s = do
    ensure (is_sha256 s.policy_digest) bad_policy_digest
    validate_items s.items

  unfoldable pub validate_evidence_set : EvidenceSet → Result EvalError (Unit {0})
  unfolding validate_set_body
  validate_evidence_set s = do
    validate_set_body s
    ensure (is_sha256 s.digest) bad_set_digest
    want ← wrap digest_failed (evidence_set_digest platform s.items s.policy_digest)
    ensure (s.digest == want) set_digest_mismatch

  unfoldable pub validate_reference : Option Artifact → Result EvalError (Unit {0})
  validate_reference none = ok tt
  validate_reference (some a) = wrap bad_artifact (validate_artifact a)

  unfoldable pub validate_instance : Instance → Result EvalError (Unit {0})
  unfolding validate_reference validate_facts check_metadata
  validate_instance i = do
    wrap bad_id (Identifier.validate i.id)
    wrap bad_artifact (validate_artifact i.input)
    wrap bad_artifact (validate_artifact i.candidate)
    validate_evidence_set i.evidence
    validate_reference i.reference
    validate_facts (item_ids i.evidence.items) i.required_facts
    check_metadata i.metadata
    ensure (is_sha256 i.digest) bad_instance_digest
    want ← wrap digest_failed (instance_digest platform i)
    ensure (i.digest == want) instance_digest_mismatch

  unfoldable pub new_evidence_set : List EvidenceItem → Bytes → Result EvalError EvidenceSet
  new_evidence_set xs policy_digest = do
    let draft : EvidenceSet = record { items = xs; policy_digest = policy_digest; digest = [] }
    validate_set_body draft
    digest ← wrap digest_failed (evidence_set_digest platform xs policy_digest)
    ok (record draft { digest = digest })

  -- The parameter list of `NewInstance` is an instance without a digest.
  unfoldable pub new_instance : Instance → Result EvalError Instance
  new_instance draft = do
    digest ← wrap digest_failed (instance_digest platform draft)
    let inst = record draft { digest = digest }
    validate_instance inst
    ok inst

  unfoldable pub bind_current_identity : Instance → Result EvalError Instance
  bind_current_identity i = do
    set_digest ←
        wrap digest_failed (evidence_set_digest platform i.evidence.items i.evidence.policy_digest)
    let bound = record i { evidence = record (i.evidence) { digest = set_digest } }
    digest ← wrap digest_failed (instance_digest platform bound)
    let inst = record bound { digest = digest }
    validate_instance inst
    ok inst
