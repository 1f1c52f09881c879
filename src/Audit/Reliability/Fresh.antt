-- ===== src/Audit/Reliability/Fresh.antt =====
-- A reliability audit of the claim judge does not depend on its cache.
use mathlib.Core.Path.{fun_ext}
use judgekit.Base.{◌≡◌, refl, sym, ap, ◌∙◌, Option, none, some, List, [], ◌∷◌, Result, ok, err}
use judgekit.Base as Base
use judgekit.Base.Text.{Bytes, is_sha256}
use judgekit.CanonicalJson.{Platform}
use judgekit.Eval.Types.{Instance}
use judgekit.Assessment.Types
use judgekit.Judging.Types.{Cache, ClaimJudge, JudgeError}
use judgekit.Judging.Effects.{Effect, bind_result, ◌>>=◌, ◌>>◌, lift, wrap_error, step-cong}
use judgekit.Judging.Evaluate
use judgekit.Judging.Evaluate.{evaluate_with_options}
use judgekit.Judging.Bypass.{with_cache, evaluate_with_options-with_cache}
use judgekit.Audit.Probes.{Probe, ProbeSet, validate_probe, validate_probe_set}
use judgekit.Audit.Reliability.{
  Judge, ReliabilityReport, ReliabilityError, bad_probe, bad_probe_set, bad_protocol_digest,
  base_failed, variant_failed, seal_reliability,
}
use judgekit.Audit.Reliability.Sums.{Sums, no_sums, add_probe, draft_report}
use judgekit.Audit.Reliability.Run.{fresh, run_probe, run_probes, reliability}

-- A claim judge, which can be configured, as a judge.
abbrev pub claim_judge : {W : Type 0} → Platform → ClaimJudge W → Judge W JudgeError
claim_judge platform j = record {
  evaluate = Evaluate.evaluate platform j;
  evaluate_with_options = some (evaluate_with_options platform j);
}

module _ {W E : Type 0} (platform : Platform) (j k : Judge W E) (same : fresh j ≡ fresh k) where
  -- A probe on a run of one instance.
  run_with :
      Probe
      → (Instance → Effect W E Types.Report)
      → Effect W (ReliabilityError E) (Types.Report × Types.Report)
  run_with probe run = do
    lift (Base.wrap bad_probe (validate_probe platform probe))
    base ← wrap_error (base_failed probe.id) (run probe.base_instance)
    variant ← wrap_error (variant_failed probe.id) (run probe.variant_instance)
    lift (ok (base, variant))

  run_probe-fresh :
      (probe : Probe) (w : W)
      → run_probe platform (some j) probe w ≡ run_probe platform (some k) probe w
  unfolding run_probe run_with bind_result
  run_probe-fresh probe w = ap (λ run. run_with probe run w) same

  run_probes-fresh :
      (s : Sums) (ps : List Probe) (w : W)
      → run_probes platform (some j) s ps w ≡ run_probes platform (some k) s ps w
  unfolding run_probes
  run_probes-fresh s [] w = refl
  run_probes-fresh s (p ∷ ps) w =
      step-cong (run_probe-fresh p w)
        (λ reports t. run_probes-fresh (add_probe p reports.0 reports.1 s) ps t)

  -- An audit with a loop over the probes.
  audit_with :
      ProbeSet
      → Bytes
      → Effect W (ReliabilityError E) Sums
      → Effect W (ReliabilityError E) ReliabilityReport
  audit_with set protocol_digest loop = do
    lift (Base.wrap bad_probe_set (validate_probe_set platform set))
    lift (Base.ensure (is_sha256 protocol_digest) bad_protocol_digest)
    s ← loop
    lift (seal_reliability platform (draft_report protocol_digest set.digest s))

  -- Two judges that run alike without the cache have the same audits.
  reliability-fresh :
      (set : ProbeSet) (protocol_digest : Bytes) (w : W)
      → reliability platform (some j) set protocol_digest w
        ≡ reliability platform (some k) set protocol_digest w
  unfolding reliability audit_with bind_result
  reliability-fresh set protocol_digest w =
      ap (λ loop. audit_with set protocol_digest loop w)
        (fun_ext (run_probes-fresh no_sums set.probes))

-- An audit of the claim judge gives the same result, and does the same to the outside world, with
-- every cache and with none: it measures the model, not the cache.
pub reliability-with_cache :
    {W : Type 0} (platform : Platform) (j : ClaimJudge W) (cache : Option (Cache W))
    (set : ProbeSet) (protocol_digest : Bytes) (w : W)
    → reliability platform (some (claim_judge platform (with_cache cache j))) set protocol_digest w
      ≡ reliability platform (some (claim_judge platform j)) set protocol_digest w
unfolding fresh
reliability-with_cache platform j cache set protocol_digest w =
    reliability-fresh platform (claim_judge platform (with_cache cache j)) (claim_judge platform j)
      (fun_ext λ inst. fun_ext λ s. evaluate_with_options-with_cache platform j cache inst s) set
      protocol_digest w
