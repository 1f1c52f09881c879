-- ===== src/Samples/Audited.antt =====
-- A probe that runs one instance twice, and a panel of two judges that answer the same.
use judgekit.Base.{◌≡◌, ◌↔◌, refl, ℕ, none, some, [], ◌∷◌, length, Result, ok, Passes}
use judgekit.Base.Maps.{find}
use judgekit.Base.Text.{Bytes, bytes}
use judgekit.Base.Float64.{of_small}
use judgekit.Assessment.Types
use judgekit.Assessment.Types.{DimensionResult}
use judgekit.Eval.Types.{Instance}
use judgekit.Judging.Bypass.{with_cache}
use judgekit.Audit.Disagreement.{
  Disagreement, index_dims, index_claims, dim_differs, label_differs, compare_reports,
}
use judgekit.Audit.Disagreement.Complete.{Agree, compare_reports-nil_iff}
use judgekit.Audit.Disagreement.Symmetric.{compare_reports-symmetric}
use judgekit.Audit.Probes.{
  Probe, ProbeSet, repeat, validate_probe_set, probe_set_digest, new_probe_set,
}
use judgekit.Audit.Probes.Sealing.{new_probe_set_iff}
use judgekit.Audit.Panel.{PanelMember, Panel, PanelResult, preserve_all, evaluate}
use judgekit.Audit.Reliability.{Judge, ReliabilityReport, report_api_version}
use judgekit.Audit.Reliability.Run.{reliability}
use judgekit.Audit.Reliability.Sealed.{IsAudit, reliability-IsAudit}
use judgekit.Audit.Reliability.Fresh.{claim_judge, reliability-with_cache}
use judgekit.Samples.Documents.{
  sample_platform, sample_digest, sample_instance, sample_dimension, sample_report,
}
use judgekit.Samples.Judge.{sample_judge, broken_cache}

abbrev valued_report : Types.Report
valued_report = record (sample_report sample_digest) {
  dimensions = record sample_dimension { value = some (of_small 1) } ∷ [];
}

abbrev steady : Instance → Unit {0} → Result (Unit {0}) Types.Report × Unit {0}
steady inst w = (ok valued_report, w)

abbrev steady_judge : Judge (Unit {0}) (Unit {0})
steady_judge = record { evaluate = steady; evaluate_with_options = none }

abbrev two_members : Panel (Unit {0}) (Unit {0})
two_members = record {
  members =
      record { id = bytes "m1"; judge = some steady }
      ∷ record { id = bytes "m2"; judge = some steady }
      ∷ [];
  policy = preserve_all;
}

abbrev agreed : PanelResult
agreed = record {
  instance_id = bytes "i1";
  reports = (bytes "m1", valued_report) ∷ (bytes "m2", valued_report) ∷ [];
  agreement_matrix =
      (bytes "m1", (bytes "m1", of_small 1) ∷ (bytes "m2", of_small 1) ∷ [])
      ∷ (bytes "m2", (bytes "m2", of_small 1) ∷ (bytes "m1", of_small 1) ∷ [])
      ∷ [];
}

abbrev one_probe : Probe
one_probe = record {
  id = bytes "p1";
  kind = repeat;
  base_instance = sample_instance;
  variant_instance = sample_instance;
  invariants = bytes "v" ∷ [];
}

abbrev one_set : ProbeSet
one_set = record { probes = one_probe ∷ []; digest = sample_digest }

abbrev steady_report : ReliabilityReport
steady_report = record {
  api_version = report_api_version;
  protocol_digest = sample_digest;
  probe_set_digest = sample_digest;
  total_pairs = 1;
  claim_label_agreement = of_small 1;
  dimension_agreement = (bytes "k1", of_small 1) ∷ [];
  mean_absolute_delta = (bytes "k1", of_small 0) ∷ [];
  disagreements = [];
  digest = sample_digest;
}

steady_report-made :
    (reliability sample_platform (some steady_judge) one_set sample_digest tt).0 ≡ ok steady_report
unfolding reliability judgekit.Base.Float64.lt_float judgekit.Base.Float64.of_small
    judgekit.Base.Float64.outside judgekit.Base.Float64.Rounding.of_int judgekit.Base.Keys.has
    judgekit.Base.Keys.scan judgekit.Base.Maps.find judgekit.Base.Text.is_blank
    judgekit.Base.Text.has_prefix judgekit.CanonicalJson.marshal
    judgekit.Eval.Digest.evidence_set_digest judgekit.Eval.Digest.instance_digest
    judgekit.Eval.Digest.text_content_digest judgekit.Eval.Validate.validate_required_fact
    judgekit.Eval.Validate.validate_artifact judgekit.Eval.Validate.validate_evidence_item
    judgekit.Eval.Validate.validate_evidence_set judgekit.Eval.Validate.validate_instance
    judgekit.Identifier.validate judgekit.Judging.Effects.bind_result
    judgekit.Audit.Disagreement.index_claims judgekit.Audit.Disagreement.union_keys
    judgekit.Audit.Probes.validate_probe judgekit.Audit.Probes.validate_probe_set
    judgekit.Audit.Reliability.seal_reliability judgekit.Audit.Reliability.Run.run_probe
    judgekit.Base.Text.split judgekit.Base.Sort.sort_texts
steady_report-made = refl

compare_reports-nil_iff_example :
    (compare_reports (bytes "p1") repeat valued_report (sample_report sample_digest) ≡ []) ↔ (
      ((id : Bytes)
        → Agree dim_differs
            (find id (index_dims valued_report))
            (find id (index_dims (sample_report sample_digest))))
      × ((id : Bytes)
          → Agree label_differs
              (find id (index_claims valued_report))
              (find id (index_claims (sample_report sample_digest)))))
compare_reports-nil_iff_example =
    compare_reports-nil_iff (bytes "p1") repeat valued_report (sample_report sample_digest)

compare_reports-symmetric_example :
    (compare_reports (bytes "p1") repeat valued_report valued_report ≡ [])
    × ((compare_reports (bytes "p1") repeat valued_report (sample_report sample_digest) ≡ [])
        ↔ (compare_reports (bytes "p1") repeat (sample_report sample_digest) valued_report ≡ []))
compare_reports-symmetric_example =
    compare_reports-symmetric (bytes "p1") repeat valued_report (sample_report sample_digest)

new_probe_set_iff_example : (new_probe_set sample_platform (one_probe ∷ []) ≡ ok one_set) ↔ (
    Passes (validate_probe_set sample_platform one_set)
    × (one_set.probes ≡ one_probe ∷ [])
    × (probe_set_digest sample_platform (one_probe ∷ []) ≡ ok one_set.digest))
new_probe_set_iff_example = new_probe_set_iff sample_platform (one_probe ∷ []) one_set

reliability-IsAudit_example :
    IsAudit (Unit {0}) sample_platform sample_digest sample_digest 1 steady_report
reliability-IsAudit_example =
    reliability-IsAudit sample_platform (some steady_judge) one_set sample_digest tt
      steady_report-made

reliability-with_cache_example :
    reliability sample_platform
      (some (claim_judge sample_platform (with_cache (some broken_cache) sample_judge)))
      one_set
      sample_digest
      tt
    ≡ reliability sample_platform
        (some (claim_judge sample_platform sample_judge))
        one_set
        sample_digest
        tt
reliability-with_cache_example =
    reliability-with_cache sample_platform sample_judge (some broken_cache) one_set sample_digest tt
