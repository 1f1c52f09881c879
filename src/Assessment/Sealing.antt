-- ===== src/Assessment/Sealing.antt =====
-- `seal`: what it returns is a valid report.
use judgekit.Base.{
  ◌≡◌, refl, sym, ap, subst, ◌∙◌, true, Option, arith, ok, wrap, Passes, >>=-eq-ok, wrap-eq-ok,
}
use judgekit.Base.Text.{Bytes, is_sha256}
use judgekit.Base.Keys.{Keys}
use judgekit.CanonicalJson.{Platform}
use judgekit.Eval.Sealing.{sum-is_sha256}
use judgekit.Assessment.Types.{Report}
use judgekit.Assessment.Digest.{report_input, report_digest}
use judgekit.Assessment.Validate.{validate_report_body, validate_report, seal, seal_failed}

module _ (platform : Platform) where
  report_digest-is_sha256 :
      (r : Report) {digest : Bytes}
      → wrap seal_failed (report_digest platform r) ≡ ok digest
      → is_sha256 digest ≡ true
  unfolding report_digest
  report_digest-is_sha256 r e = sum-is_sha256 platform (report_input platform r) (wrap-eq-ok _ _ e)

  -- Neither the checks of the body nor the digest look at the stored digest.
  validate_report_body-stamp :
      (r : Report) (allowed : Option Keys) (digest : Bytes)
      → validate_report_body platform (record r { digest = digest }) allowed
        ≡ validate_report_body platform r allowed
  unfolding validate_report_body
  validate_report_body-stamp r allowed digest = refl

  seal-stamp :
      (r : Report) (allowed : Option Keys) (digest : Bytes)
      → seal platform (record r { digest = digest }) allowed ≡ seal platform r allowed
  unfolding seal report_digest report_input
  seal-stamp r allowed digest = refl

  -- What `seal` returns is a valid report, differs from the draft in the digest only, and the
  -- digest is that of the draft; a digest that the draft carried has no influence, so that sealing
  -- again changes nothing.
  pub seal-valid :
      (r : Report) (allowed : Option Keys) {s : Report}
      → seal platform r allowed ≡ ok s
      → Passes (validate_report platform s allowed)
        × (s ≡ record r { digest = s.digest })
        × (report_digest platform r ≡ ok s.digest)
        × ((digest : Bytes) → seal platform (record r { digest = digest }) allowed ≡ ok s)
        × (seal platform s allowed ≡ ok s)
  unfolding seal validate_report
  seal-valid r allowed {s} e =
      let (_, accepted, e₁) = >>=-eq-ok (validate_report_body platform r allowed) _ e in
      let (digest, made, e₂) = >>=-eq-ok (wrap seal_failed (report_digest platform r)) _ e₁ in
      let stamped : record r { digest = digest } ≡ s = cc in
      let valid : Passes (validate_report platform (record r { digest = digest }) allowed) =
        ground (
          arith,
          validate_report_body-stamp r allowed digest,
          accepted,
          report_digest-is_sha256 r made,
        ) in
      (
        subst (λ t. Passes (validate_report platform t allowed)) stamped valid,
        subst (λ t. t ≡ record r { digest = t.digest }) stamped refl,
        wrap-eq-ok _ _ made ∙ ap (λ (t : Report). ok t.digest) stamped,
        λ d. seal-stamp r allowed d ∙ e,
        ap (λ t. seal platform t allowed) (sym stamped) ∙ seal-stamp r allowed digest ∙ e,
      )
