-- ===== src/Audit/Reliability/Sealed.antt =====
-- What `Reliability` returns passes `ValidateReport`.
use judgekit.Base.{
  ℕ, suc, ◌+◌, ◌<◌, ◌≡◌, refl, sym, ap, subst, ◌∙◌, inl, inr, Bool, true, false, ◌||◌, Option, none,
  some, List, [], ◌∷◌, length, ltb, All, Result, ok, err, arith, Bool-cases, Passes, >>_iff,
  ensure_iff, refuse_iff, if◌then◌else◌,
}
use judgekit.Base as Base
use judgekit.Base.Text.{Bytes, ==-refl, is_sha256}
use judgekit.Base.Float64.{Float64, of_small, outside, lt_float}
use judgekit.Base.Float64.Bounds.{IsWithin-outside}
use judgekit.Base.Float64.Sign.{IsUnsigned, IsUnsigned-lt_float}
use judgekit.Base.Maps.{Map}
use judgekit.CanonicalJson.{Platform, sum}
use judgekit.Eval.Sealing.{sum-is_sha256}
use judgekit.Judging.Aggregate.{quotient}
use judgekit.Judging.Aggregate.Quotient.{quotient-IsWithin}
use judgekit.Judging.Effects.{bind_result-eq-ok}
use judgekit.Audit.Probes.{Probe, ProbeSet, validate_probe_set}
use judgekit.Audit.Probes.Sealing.{validate_probe_set_iff}
use judgekit.Audit.Reliability.{
  Judge, ReliabilityReport, bad_probe_set, bad_protocol_digest, outside_unit, check_agreements,
  check_deltas, validate_report, reliability_input, seal_reliability, bad_dimension_agreement,
  negative_delta, seal_failed, report_api_version,
}
use judgekit.Audit.Reliability.Sums.{Sums, no_sums, add_probe, draft_report}
use judgekit.Audit.Reliability.Valid.{
  IsSums, no_sums-IsSums, add_probe-IsSums, agreements-AllWithin, deltas-AllUnsigned, IsSums-dims,
}
use judgekit.Audit.Reliability.Run.{run_probe, run_probes, reliability}

-- A report on `n` probes that passes the checks and carries its own digest.
pub record IsAudit (E : Type 0) (platform : Platform) (protocol_digest probe_set_digest : Bytes)
    (n : ℕ) (r : ReliabilityReport) : Type 0 where
  pub valid : Passes (validate_report {E = E} r)
  pub protocol : r.protocol_digest ≡ protocol_digest
  pub probe_set : r.probe_set_digest ≡ probe_set_digest
  pub pairs : r.total_pairs ≡ n
  pub digest : sum platform (reliability_input r) ≡ ok r.digest

outside→outside_unit : (x : Float64) → outside 0 1 x ≡ false → outside_unit x ≡ false
unfolding outside outside_unit
outside→outside_unit x h = ground arith

zero_inside : outside 0 1 (of_small 0) ≡ false
unfolding outside of_small lt_float
zero_inside = refl

claims-outside :
    (n : ℕ) (s : Sums)
    → IsSums n s
    → outside 0 1
        (if ltb 0 s.claim_total then quotient s.claim_matches s.claim_total else of_small 0)
      ≡ false
claims-outside n s h = elim (Bool-cases (ltb 0 s.claim_total)) [
  | inl some_claims ↦ rw some_claims (
      IsWithin-outside _
        (quotient-IsWithin s.claim_matches s.claim_total (ground (arith, some_claims)) h.claims))
  | inr no_claims ↦ rw no_claims zero_inside
]

module _ {E : Type 0} where
  check_agreements-Passes :
      (m : Map Float64)
      → All (λ (e : Bytes × Float64). outside 0 1 e.1 ≡ false) m
      → Passes (check_agreements {E = E} m)
  unfolding check_agreements
  check_agreements-Passes [] h = refl
  check_agreements-Passes ((id, a) ∷ m) (here, later) = (>>_iff _ _).1 (
    (refuse_iff (outside_unit a) (bad_dimension_agreement id)).1 (outside→outside_unit a here),
    check_agreements-Passes m later,
  )

  check_deltas-Passes :
      (m : Map Float64)
      → All (λ (e : Bytes × Float64). IsUnsigned e.1) m
      → Passes (check_deltas {E = E} m)
  unfolding check_deltas
  check_deltas-Passes [] h = refl
  check_deltas-Passes ((id, d) ∷ m) (here, later) = (>>_iff _ _).1 (
    (refuse_iff (lt_float d (of_small 0)) (negative_delta id)).1 (IsUnsigned-lt_float d here),
    check_deltas-Passes m later,
  )

  -- The checks of the report, which `seal_reliability` does not make, pass.
  stamped-Passes :
      (n : ℕ) (s : Sums) (protocol_digest probe_set_digest digest : Bytes)
      → IsSums n s
      → is_sha256 protocol_digest ≡ true
      → is_sha256 probe_set_digest ≡ true
      → is_sha256 digest ≡ true
      → Passes (
          validate_report {E = E}
            (record (draft_report protocol_digest probe_set_digest s) { digest = digest }))
  unfolding validate_report draft_report
  stamped-Passes n s protocol_digest probe_set_digest digest h p d e = ground (
    arith,
    ==-refl report_api_version,
    p,
    d,
    e,
    outside→outside_unit _ (claims-outside n s h),
    check_agreements-Passes _ (agreements-AllWithin s s.dim_total (IsSums-dims n s h)),
    check_deltas-Passes _ (deltas-AllUnsigned s s.dim_total h.sums),
  )

  -- What is sealed is valid.
  seal_reliability-valid :
      (platform : Platform) (n : ℕ) (s : Sums) (protocol_digest probe_set_digest : Bytes)
      {r : ReliabilityReport}
      → IsSums n s
      → is_sha256 protocol_digest ≡ true
      → is_sha256 probe_set_digest ≡ true
      → seal_reliability {E = E} platform (draft_report protocol_digest probe_set_digest s) ≡ ok r
      → IsAudit E platform protocol_digest probe_set_digest n r
  unfolding seal_reliability reliability_input draft_report
  seal_reliability-valid platform n s protocol_digest probe_set_digest {r} h p d e =
      let draft = draft_report protocol_digest probe_set_digest s in
      let (digest, hashed, e₁) =
        Base.>>=-eq-ok (Base.wrap seal_failed (sum platform (reliability_input draft))) _ e in
      let made : sum platform (reliability_input draft) ≡ ok digest = Base.wrap-eq-ok _ _ hashed in
      let same : record draft { digest = digest } ≡ r = cc in
      subst (IsAudit E platform protocol_digest probe_set_digest n) same record {
        valid =
            stamped-Passes n s protocol_digest probe_set_digest digest h p d
              (sum-is_sha256 platform _ made);
        protocol = refl;
        probe_set = refl;
        pairs = h.pairs;
        digest = made;
      }

module _ {W E : Type 0} (platform : Platform) (judge? : Option (Judge W E)) where
  -- `m` is the number of probes in the end.
  run_probes-IsSums :
      (n m : ℕ) (s : Sums) (ps : List Probe) (w : W) {t : Sums}
      → n + length ps ≡ m
      → IsSums n s
      → (run_probes platform judge? s ps w).0 ≡ ok t
      → IsSums m t
  unfolding run_probes
  run_probes-IsSums n m s [] w {t} sized h e =
      let same : s ≡ t = cc in
      let all : n ≡ m = omega (arith, sized) in
      subst (IsSums m) same (subst (λ k. IsSums k s) all h)
  run_probes-IsSums n m s (p ∷ ps) w {t} sized h e =
      let (reports, _, e₁) =
        bind_result-eq-ok (run_probe platform judge? p w).0 _ (run_probe platform judge? p w).1 e in
      run_probes-IsSums (n + 1) m (add_probe p reports.0 reports.1 s) ps
        (run_probe platform judge? p w).1 {t = t} (omega (arith, sized))
        (add_probe-IsSums p reports.0 reports.1 n s h) e₁

  -- An audit that succeeds returns a report that `ValidateReport` accepts, which names the protocol
  -- and the probe set, counts every probe, and carries its own digest: the sealing checks nothing,
  -- but no agreement leaves [0, 1] and no mean delta is below 0, whatever the judge answers.
  pub reliability-IsAudit :
      (set : ProbeSet) (protocol_digest : Bytes) (w : W) {r : ReliabilityReport}
      → (reliability platform judge? set protocol_digest w).0 ≡ ok r
      → IsAudit E platform protocol_digest set.digest (length set.probes) r
  unfolding reliability
  reliability-IsAudit set protocol_digest w {r} e =
      let (_, accepted, e₁) = bind_result-eq-ok _ _ _ e in
      let (_, _, e₂) = bind_result-eq-ok _ _ _ e₁ in
      let (_, named, e₃) = bind_result-eq-ok _ _ _ e₂ in
      let (s, counted, e₄) = bind_result-eq-ok _ _ _ e₃ in
      let is_set =
        ((validate_probe_set_iff platform set).0
          ((Base.wrap_iff bad_probe_set (validate_probe_set platform set)).0 accepted)).1 in
      let is_protocol = (ensure_iff (is_sha256 protocol_digest) bad_protocol_digest).0 named in
      seal_reliability-valid platform (length set.probes) s protocol_digest set.digest {r = r}
        (run_probes-IsSums 0 (length set.probes) no_sums set.probes _ {t = s} (omega arith)
          no_sums-IsSums counted)
        is_protocol is_set e₄
