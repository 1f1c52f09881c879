-- ===== src/Eval/Sealing.antt =====
-- Sealing: what the constructors and `bind_current_identity` return is valid and content-addressed.
use judgekit.Base.{
  ◌<◌, ◌≡◌, refl, sym, ap, subst, ◌∙◌, ◌↔◌, true, false, List, [], length, arith, ok, wrap, Passes,
  >>=-eq-ok, wrap-eq-ok, length-append,
}
use judgekit.Base.Text.{Bytes, ==-refl, is_blank, is_sha256, sha256_prefix, has_prefix-append}
use judgekit.Base.Int.{pos, eq_int_iff}
use judgekit.CanonicalJson.{Platform, Json, marshal, sum, digest_text}
use judgekit.Eval.Types.{EvidenceItem, EvidenceSet, Instance}
use judgekit.Eval.Digest.{evidence_input, evidence_set_digest, instance_digest, new_text_artifact}
use judgekit.Eval.Validate.{
  validate_artifact, validate_set_body, validate_evidence_set, validate_instance, new_evidence_set,
  bind_current_identity, digest_failed,
}

is_blank-nil : is_blank [] ≡ true
unfolding is_blank
is_blank-nil = refl

-- An instance with other stored digests.
abbrev pub restamp : (set_digest digest : Bytes) → Instance → Instance
restamp set_digest digest i = record i {
  evidence = record (i.evidence) { digest = set_digest };
  digest = digest;
}

module _ (platform : Platform) where
  pub digest_text-is_sha256 : (c : Bytes) → is_sha256 (digest_text platform c) ≡ true
  unfolding digest_text
  digest_text-is_sha256 c = has_prefix-append sha256_prefix (platform.sha256_hex c)

  digest_text-long :
      (c : Bytes)
      → 0 < length (platform.sha256_hex c)
      → length sha256_prefix < length (digest_text platform c)
  unfolding digest_text
  digest_text-long c h = omega (arith, length-append sha256_prefix (platform.sha256_hex c))

  -- A digest begins with `sha256:`.
  pub sum-is_sha256 :
      (v : Json) {digest : Bytes} → sum platform v ≡ ok digest → is_sha256 digest ≡ true
  unfolding sum
  sum-is_sha256 v e =
      let (text, _, e') = >>=-eq-ok (marshal platform v) _ e in
      ground (arith, digest_text-is_sha256 text)

  -- `validate_artifact` accepts what `new_text_artifact` builds exactly if neither the media type
  -- nor the text is blank, provided that a SHA-256 text is never empty.
  pub validate_artifact-new_text_artifact :
      ((content : Bytes) → 0 < length (platform.sha256_hex content))
      → (media_type text : Bytes)
      → Passes (validate_artifact platform (new_text_artifact platform media_type text))
        ↔ ((is_blank media_type ≡ false) × (is_blank text ≡ false))
  unfolding validate_artifact new_text_artifact
  validate_artifact-new_text_artifact hex media_type text = ground (
    arith,
    is_blank-nil,
    ==-refl (digest_text platform text),
    digest_text-is_sha256 text,
    digest_text-long text (hex text),
    eq_int_iff (pos (length text)) (pos (length text)),
  )

  evidence_set_digest-is_sha256 :
      (xs : List EvidenceItem) (policy_digest : Bytes) {digest : Bytes}
      → wrap digest_failed (evidence_set_digest platform xs policy_digest) ≡ ok digest
      → is_sha256 digest ≡ true
  unfolding evidence_set_digest
  evidence_set_digest-is_sha256 xs policy_digest {digest} e =
      sum-is_sha256 (evidence_input platform xs policy_digest) (wrap-eq-ok _ _ e)

  validate_set_body-stamp :
      (s : EvidenceSet) (digest : Bytes)
      → validate_set_body platform (record s { digest = digest }) ≡ validate_set_body platform s
  unfolding validate_set_body
  validate_set_body-stamp s digest = refl

  -- What `new_evidence_set` returns is valid, and holds the items and the policy digest it was
  -- given.
  pub new_evidence_set-valid :
      (xs : List EvidenceItem) (policy_digest : Bytes) {s : EvidenceSet}
      → new_evidence_set platform xs policy_digest ≡ ok s
      → Passes (validate_evidence_set platform s)
        × (s.items ≡ xs)
        × (s.policy_digest ≡ policy_digest)
  unfolding new_evidence_set validate_evidence_set
  new_evidence_set-valid xs policy_digest {s} e =
      let draft : Bytes → EvidenceSet =
        λ d. record { items = xs; policy_digest = policy_digest; digest = d } in
      let (body, accepted, e₁) = >>=-eq-ok (validate_set_body platform (draft [])) _ e in
      let (digest, made, e₂) =
        >>=-eq-ok (wrap digest_failed (evidence_set_digest platform xs policy_digest)) _ e₁ in
      let stamped : draft digest ≡ s = cc in
      let set_ok : Passes (validate_evidence_set platform (draft digest)) = rw (
        validate_set_body-stamp (draft []) digest,
        accepted,
        evidence_set_digest-is_sha256 xs policy_digest made,
        made,
        ==-refl digest,
      ) in
      (
        subst (λ t. Passes (validate_evidence_set platform t)) stamped set_ok,
        ap (λ (t : EvidenceSet). t.items) (sym stamped),
        ap (λ (t : EvidenceSet). t.policy_digest) (sym stamped),
      )

  bind_current_identity-restamp :
      (set_digest digest : Bytes) (i : Instance)
      → bind_current_identity platform (restamp set_digest digest i)
        ≡ bind_current_identity platform i
  unfolding bind_current_identity instance_digest
  bind_current_identity-restamp set_digest digest i = refl

  -- What `bind_current_identity` returns is valid and differs from its input in the two stored
  -- digests only; those of the input have no influence, so that binding again changes nothing.
  pub bind_current_identity-valid :
      (i : Instance) {j : Instance}
      → bind_current_identity platform i ≡ ok j
      → Passes (validate_instance platform j)
        × (j ≡ restamp j.evidence.digest j.digest i)
        × ((set_digest digest : Bytes)
            → bind_current_identity platform (restamp set_digest digest i) ≡ ok j)
        × (bind_current_identity platform j ≡ ok j)
  unfolding bind_current_identity
  bind_current_identity-valid i {j} e =
      let (set_digest, made, e₁) =
        >>=-eq-ok
          (wrap digest_failed
            (evidence_set_digest platform i.evidence.items i.evidence.policy_digest))
          _ e in
      let (digest, hashed, e₂) =
        >>=-eq-ok (wrap digest_failed (instance_digest platform (restamp set_digest i.digest i))) _
          e₁ in
      let (_, accepted, e₃) =
        >>=-eq-ok (validate_instance platform (restamp set_digest digest i)) _ e₂ in
      let stamped : restamp set_digest digest i ≡ j = cc in
      (
        subst (λ t. Passes (validate_instance platform t)) stamped accepted,
        subst (λ t. t ≡ restamp t.evidence.digest t.digest i) stamped refl,
        λ s d. bind_current_identity-restamp s d i ∙ e,
        ap (bind_current_identity platform) (sym stamped)
            ∙ bind_current_identity-restamp set_digest digest i
            ∙ e,
      )
