-- ===== src/Assessment/Grounded.antt =====
-- What an accepted report says: one result for each claim, and no evidence but the admitted one.
use mathlib.Core.List.{Mem, Subset, Nodup, Perm, nil-subset, cons-subset}
use judgekit.Base.{
  ◌≡◌, ◌⊎◌, false, Option, some, List, [], ◌∷◌, arith, length, length-map, is_empty, All, All-map,
  Result, ok, ◌>>◌, ensure, refuse, Passes, >>_iff, ensure_iff, refuse_iff,
}
use judgekit.Base.Text.{Bytes, ==_iff, is_blank, Bytes-discrete}
use judgekit.Base.Keys.{Keys, has, has_iff, scan_iff}
use judgekit.Base.Scan.{map_same}
use judgekit.Base.Pigeonhole.{perm_of_subset}
use judgekit.CanonicalJson.{Platform}
use judgekit.Assessment.Types.{
  Claim, ClaimAssessment, DimensionResult, Report, insufficient, valid_support_labels,
  valid_support_label,
}
use judgekit.Assessment.Validate.{
  AssessmentError, claim_ids, result_ids, validate_claim, is_foreign, check_citations,
  validate_claim_assessment, validate_dimension, check_claims, check_results, check_dimensions,
  validate_report_body, duplicate_claim, duplicate_result, duplicate_dimension, unknown_claim,
  repeated_evidence, unknown_evidence, blank_evidence, validate_run_provenance,
}

-- Distinct ids, all of them admitted.
abbrev pub IsCitation : Keys → List Bytes → Type 0
IsCitation allowed ids = Subset ids allowed × Nodup ids

All-subset :
    (allowed : Keys) (ids : List Bytes)
    → All (λ id. is_foreign (some allowed) id ≡ false) ids
    → Subset ids allowed
All-subset allowed [] h = nil-subset allowed
All-subset allowed (id ∷ ids) h =
    cons-subset.1 ((has_iff id allowed).0 (ground arith), All-subset allowed ids h.1)

check_citations-IsCitation :
    (allowed : Keys) (ids : List Bytes)
    → Passes (check_citations (some allowed) ids)
    → IsCitation allowed ids
unfolding check_citations
check_citations-IsCitation allowed ids h =
    let (each, distinct) =
      (scan_iff (λ id. id) (λ id. refuse (is_blank id) blank_evidence) repeated_evidence
          (λ id. refuse (is_foreign (some allowed) id) (unknown_evidence id)) ids).0
        h in
    (
      All-subset allowed ids (All-map (λ id p. (refuse_iff _ _).0 p.1) ids each),
      rw (map_same ids) at distinct,
    )

-- A verdict with a support label that cites admitted evidence, and some unless it is `insufficient`.
pub record IsGrounded (allowed : Keys) (a : ClaimAssessment) : Type 0 where
  pub labelled : Mem a.label valid_support_labels
  pub cited : IsCitation allowed a.evidence_ids
  pub founded : (a.label ≡ insufficient) ⊎ (is_empty a.evidence_ids ≡ false)

pub validate_claim_assessment-IsGrounded :
    (allowed : Keys) (a : ClaimAssessment)
    → Passes (validate_claim_assessment a (some allowed))
    → IsGrounded allowed a
unfolding validate_claim_assessment valid_support_label
validate_claim_assessment-IsGrounded allowed a h = ground (
  arith,
  has_iff a.label valid_support_labels,
  check_citations-IsCitation allowed a.evidence_ids,
  ==_iff a.label insufficient,
)

validate_dimension-IsCitation :
    (allowed : Keys) (d : DimensionResult)
    → Passes (validate_dimension d (some allowed))
    → IsCitation allowed d.evidence_ids
unfolding validate_dimension
validate_dimension-IsCitation allowed d h =
    ground (arith, check_citations-IsCitation allowed d.evidence_ids)

check_result : Keys → Option Keys → ClaimAssessment → Result AssessmentError (Unit {0})
check_result claims allowed a = do
  validate_claim_assessment a allowed
  ensure (has a.claim_id claims) (unknown_claim a.claim_id)

results-subset :
    (claims : Keys) (allowed : Option Keys) (rs : List ClaimAssessment)
    → All (λ a. Passes (check_result claims allowed a)) rs
    → Subset (result_ids rs) claims
unfolding check_result
results-subset claims allowed [] h = nil-subset claims
results-subset claims allowed (a ∷ rs) h = cons-subset.1 (
  (has_iff a.claim_id claims).0 ((ensure_iff _ _).0 ((>>_iff _ _).0 h.0).1),
  results-subset claims allowed rs h.1,
)

module _ (platform : Platform) where
  -- The loops that an accepted report has passed.
  pub validate_report_body-parts :
      (r : Report) (allowed : Option Keys)
      → Passes (validate_report_body platform r allowed)
      → Passes (check_claims r.claims)
        × Passes (check_results (claim_ids r.claims) allowed r.claim_results)
        × (length r.claim_results ≡ length r.claims)
        × Passes (check_dimensions allowed r.dimensions)
        × Passes (validate_run_provenance r.provenance r.protocol_digest r.instance_digest)
  unfolding validate_report_body
  validate_report_body-parts r allowed h = ground arith

  -- An accepted report has exactly one result for each claim, and the claims have distinct ids.
  pub validate_report_body-one_result :
      (r : Report) (allowed : Option Keys)
      → Passes (validate_report_body platform r allowed)
      → Perm (result_ids r.claim_results) (claim_ids r.claims) × Nodup (claim_ids r.claims)
  unfolding check_claims check_results check_result
  validate_report_body-one_result r allowed h =
      let (claims_ok, results_ok, same_length, _, _) = validate_report_body-parts r allowed h in
      let (_, distinct) =
        (scan_iff (λ (c : Claim). c.id) validate_claim (λ c. duplicate_claim c.id) (λ _. ok tt)
            r.claims).0
          claims_ok in
      let (each, once) =
        (scan_iff (λ (a : ClaimAssessment). a.claim_id) _ (λ a. duplicate_result a.claim_id)
            (λ _. ok tt) r.claim_results).0
          results_ok in
      (
        perm_of_subset Bytes-discrete once
            (results-subset (claim_ids r.claims) allowed r.claim_results
              (All-map (λ a p. p.0) r.claim_results each))
            (omega (
              arith,
              same_length,
              length-map (λ (a : ClaimAssessment). a.claim_id) r.claim_results,
              length-map (λ (c : Claim). c.id) r.claims,
            )),
        distinct,
      )

  -- In a report that is accepted against a set of admitted evidence, every verdict is grounded in
  -- that set, and every dimension cites evidence of the set only, each piece once.
  pub validate_report_body-IsGrounded :
      (r : Report) (allowed : Keys)
      → Passes (validate_report_body platform r (some allowed))
      → All (IsGrounded allowed) r.claim_results
        × All (λ (d : DimensionResult). IsCitation allowed d.evidence_ids) r.dimensions
  unfolding check_results check_dimensions
  validate_report_body-IsGrounded r allowed h =
      let (_, results_ok, _, dims_ok, _) = validate_report_body-parts r (some allowed) h in
      let (verdicts, _) =
        (scan_iff (λ (a : ClaimAssessment). a.claim_id) _ (λ a. duplicate_result a.claim_id)
            (λ _. ok tt) r.claim_results).0
          results_ok in
      let (dims, _) =
        (scan_iff (λ (d : DimensionResult). d.construct_id) _
            (λ d. duplicate_dimension d.construct_id) (λ _. ok tt) r.dimensions).0
          dims_ok in
      (
        All-map (λ a p. validate_claim_assessment-IsGrounded allowed a ((>>_iff _ _).0 p.0).0)
            r.claim_results verdicts,
        All-map (λ d p. validate_dimension-IsCitation allowed d p.0) r.dimensions dims,
      )
