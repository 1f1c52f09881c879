-- ===== src/Eval/Binding.antt =====
-- BindCurrentIdentity and the instances whose digests are current.
use judgekit.Base.{
  ◌≡◌, refl, sym, ap, ◌↔◌, Result, ok, err, ◌>>=◌, ◌>>◌, ensure, wrap, Passes, >>_iff, ensure_iff,
  arith,
}
use judgekit.Base.Text.{Bytes, ◌==◌, ==_iff}
use judgekit.CanonicalJson.{Platform, JsonError}
use judgekit.Eval.Types.{EvidenceSet, Instance}
use judgekit.Eval.Digest.{evidence_set_digest, instance_digest}
use judgekit.Eval.Validate.{
  EvalError, digest_failed, set_digest_mismatch, instance_digest_mismatch, validate_evidence_set,
  validate_instance, bind_current_identity,
}
use judgekit.Eval.Sealing.{bind_current_identity-valid}
use judgekit.Eval.References.{validate_instance-parts}

-- A digest that is computed and compared with the stored one is the stored one.
compared :
    (r : Result JsonError Bytes) (stored : Bytes) (e : EvalError)
    → Passes (wrap digest_failed r >>= λ want. ensure (stored == want) e)
    → r ≡ ok stored
compared (ok want) stored e h = ap ok (sym ((==_iff stored want).0 ((ensure_iff _ e).0 h)))
compared (err f) stored e h = cc

last : {E : Type 0} (m k : Result E (Unit {0})) → Passes (m >> k) → Passes k
last m k h = ((>>_iff m k).0 h).1

module _ (platform : Platform) where
  set_digest-current :
      (s : EvidenceSet)
      → Passes (validate_evidence_set platform s)
      → evidence_set_digest platform s.items s.policy_digest ≡ ok s.digest
  unfolding validate_evidence_set
  set_digest-current s h = compared _ s.digest set_digest_mismatch (last _ _ (last _ _ h))

  instance_digest-current :
      (i : Instance)
      → Passes (validate_instance platform i)
      → instance_digest platform i ≡ ok i.digest
  unfolding validate_instance
  instance_digest-current i h = compared _ i.digest instance_digest_mismatch (ground arith)

  -- Binding succeeds on an instance and keeps it unchanged exactly if the instance is valid.
  pub bind_current_identity_iff :
      (i : Instance)
      → (bind_current_identity platform i ≡ ok i) ↔ Passes (validate_instance platform i)
  unfolding bind_current_identity
  bind_current_identity_iff i = (
    λ e. (bind_current_identity-valid platform i e).0,
    λ h.
        rw
          (
            set_digest-current i.evidence (validate_instance-parts platform i h).0,
            instance_digest-current i h,
            h,
          )
          refl,
  )
