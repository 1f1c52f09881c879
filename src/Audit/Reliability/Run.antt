-- ===== src/Audit/Reliability/Run.antt =====
-- audit/reliability.go: the judge is run on both instances of every probe.
use judgekit.Base.{Option, none, some, List, [], ◌∷◌, Result, ok, err}
use judgekit.Base as Base
use judgekit.Base.Text.{Bytes, is_sha256}
use judgekit.CanonicalJson.{Platform}
use judgekit.Eval.Types.{Instance}
use judgekit.Assessment.Types
use judgekit.Judging.Types.{cache_bypass}
use judgekit.Judging.Effects.{Effect, ◌>>=◌, ◌>>◌, lift, wrap_error}
use judgekit.Audit.Probes.{Probe, ProbeSet, validate_probe, validate_probe_set}
use judgekit.Audit.Reliability.{
  Judge, ReliabilityReport, ReliabilityError, bad_probe, bad_probe_set, no_judge,
  bad_protocol_digest, base_failed, variant_failed, seal_reliability,
}
use judgekit.Audit.Reliability.Sums.{Sums, no_sums, add_probe, draft_report}

module _ {W E : Type 0} where
  -- A judge that can be configured runs without the cache.
  unfoldable pub fresh : Judge W E → Instance → Effect W E Types.Report
  fresh judge = elim judge.evaluate_with_options [
    | none ↦ judge.evaluate
    | some evaluate ↦ λ inst. evaluate inst cache_bypass
  ]

  abbrev pub the_judge : Option (Judge W E) → Result (ReliabilityError E) (Judge W E)
  the_judge none = err no_judge
  the_judge (some judge) = ok judge

  module _ (platform : Platform) where
    unfoldable pub run_probe :
        Option (Judge W E) → Probe → Effect W (ReliabilityError E) (Types.Report × Types.Report)
    unfolding fresh
    run_probe judge? probe = do
      lift (Base.wrap bad_probe (validate_probe platform probe))
      judge ← lift (the_judge judge?)
      base ← wrap_error (base_failed probe.id) (fresh judge probe.base_instance)
      variant ← wrap_error (variant_failed probe.id) (fresh judge probe.variant_instance)
      lift (ok (base, variant))

    unfoldable pub run_probes :
        Option (Judge W E) → Sums → List Probe → Effect W (ReliabilityError E) Sums
    unfolding run_probe add_probe
    run_probes judge? s [] = lift (ok s)
    run_probes judge? s (p ∷ ps) = do
      reports ← run_probe judge? p
      run_probes judge? (add_probe p reports.0 reports.1 s) ps

    unfoldable pub reliability :
        Option (Judge W E)
        → ProbeSet
        → (protocol_digest : Bytes) → Effect W (ReliabilityError E) ReliabilityReport
    unfolding run_probes draft_report
    reliability judge? set protocol_digest = do
      lift (Base.wrap bad_probe_set (validate_probe_set platform set))
      _ ← lift (the_judge judge?)
      lift (Base.ensure (is_sha256 protocol_digest) bad_protocol_digest)
      s ← run_probes judge? no_sums set.probes
      lift (seal_reliability platform (draft_report protocol_digest set.digest s))
