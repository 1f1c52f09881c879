-- ===== src/Eval/Artifacts.antt =====
-- What an artifact is: inline text with its digest and size, or a reference with those that it names.
use judgekit.Base.{
  ◌≡◌, refl, sym, subst, ◌↔◌, ◌⊎◌, inl, inr, ◌<◌, true, false, length, Passes, arith, Bool-cases,
}
use judgekit.Base.Text.{==_iff, is_blank, is_sha256}
use judgekit.Base.Int.{pos, is_negative, eq_int_iff}
use judgekit.CanonicalJson.{Platform}
use judgekit.Eval.Types.{Artifact}
use judgekit.Eval.Digest.{text_content_digest}
use judgekit.Eval.Validate.{validate_artifact, validate_text}
use judgekit.Eval.Sealing.{digest_text-is_sha256}

module _ (platform : Platform) where
  -- Text that is not blank, and a URI that is.
  pub record IsInline (a : Artifact) : Type 0 where
    pub typed : is_blank a.media_type ≡ false
    pub written : is_blank a.text ≡ false
    pub no_uri : is_blank a.uri ≡ true
    pub digested : a.digest ≡ text_content_digest platform a.text
    pub long : 7 < length a.digest
    pub sized : a.size_bytes ≡ pos (length a.text)

  -- A URI that is not blank, and blank text.
  pub record IsReference (a : Artifact) : Type 0 where
    pub typed : is_blank a.media_type ≡ false
    pub no_text : is_blank a.text ≡ true
    pub located : is_blank a.uri ≡ false
    pub digested : is_sha256 a.digest ≡ true
    pub long : 7 < length a.digest
    pub sized : is_negative a.size_bytes ≡ false

  -- An artifact is accepted exactly if it has a media type and either holds text that is not blank,
  -- with a blank URI and the text's own digest and length in bytes, or has a URI that is not blank,
  -- with blank text, some digest with the prefix and a size that is not negative. In both cases the
  -- digest is longer than its prefix.
  pub validate_artifact_iff :
      (a : Artifact) → Passes (validate_artifact platform a) ↔ (IsInline a ⊎ IsReference a)
  unfolding validate_artifact validate_text text_content_digest
  validate_artifact_iff a = (accepted, λ h. elim h [ inl i ↦ inline i | inr r ↦ reference r ])
    where
      accepted : Passes (validate_artifact platform a) → IsInline a ⊎ IsReference a
      accepted h = elim (Bool-cases (is_blank a.text)) [
        | inr written ↦ inl record {
          typed = ground (arith, h);
          written = written;
          no_uri = ground (arith, h, written);
          digested =
              ground (arith, h, written, ==_iff a.digest (text_content_digest platform a.text));
          long = ground (arith, h);
          sized = ground (arith, h, written, eq_int_iff a.size_bytes (pos (length a.text)));
        }
        | inl blank ↦ inr record {
          typed = ground (arith, h);
          no_text = blank;
          located = ground (arith, h, blank);
          digested = ground (arith, h);
          long = ground (arith, h);
          sized = ground (arith, h);
        }
      ]

      inline : IsInline a → Passes (validate_artifact platform a)
      inline i = ground (
        arith,
        i.typed,
        i.written,
        i.no_uri,
        i.long,
        (==_iff a.digest (text_content_digest platform a.text)).1 i.digested,
        (eq_int_iff a.size_bytes (pos (length a.text))).1 i.sized,
        subst (λ d. is_sha256 d ≡ true) (sym i.digested) (digest_text-is_sha256 platform a.text),
        subst (λ s. is_negative s ≡ false) (sym i.sized) refl,
      )

      reference : IsReference a → Passes (validate_artifact platform a)
      reference r = ground (arith, r.typed, r.no_text, r.located, r.digested, r.long, r.sized)
