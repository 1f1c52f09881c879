-- ===== src/Calibration/Report/Equal.antt =====
-- The values in the report of `Calibrate`, and those of the functions on one report.
use native.Mathlib.Nat.{zero-add}
use judgekit.Base.{
  ℕ, suc, ◌+◌, ◌≡◌, refl, sym, ap, subst, ◌∙◌, Bool, true, false, Option, none, some, List, [], ◌∷◌,
  ◌++◌, length, All, is_empty, if◌then◌else◌, Result, ok, err, ◌>>=◌, ◌>>◌, wrap, ensure, >>=-eq-ok,
  wrap-eq-ok, arith, Bool-cases, inl, inr, ltb,
}
use judgekit.Base.Text.{Bytes, is_sha256}
use judgekit.Base.Maps.{find}
use judgekit.Base.Int.{ℤ}
use judgekit.Base.Float64.{Float64, of_small}
use judgekit.CanonicalJson.{Platform}
use judgekit.Assessment.Types
use judgekit.Judging.Aggregate.{quotient}
use judgekit.Calibration.Gold.{GoldClaim, validate_gold_set}
use judgekit.Calibration.Confusion.{
  Confusion, ClaimMatcher, matcher_of, count_matched, confusion_from_claims, extraction_recall,
  sensitivity, specificity, false_support_rate,
}
use judgekit.Calibration.Scoring.{confidence_outcome_pairs, brier_score, expected_calibration_error}
use judgekit.Calibration.Report.{
  Tally, Report, CalibrateInput, empty_tally, tally, max1, bins_of, with_scores, draft_report,
  calibrate, seal, bad_gold, bad_protocol_digest, seal_failed, report_digest, validate_report_body,
  check_reports,
}
use judgekit.Calibration.Report.Valid.{scores_of, scores_of-cases}
use judgekit.Calibration.Report.Single.{tally-extended}

-- Both scores are absent without probabilities, and are those of the pairs otherwise.
abbrev pub ScoresOf :
    (confidences outcomes : List Float64) → ℤ → (brier ece : Option Float64) → Type 0
ScoresOf ps zs bins none none = is_empty ps ≡ true
ScoresOf ps zs bins (some b) (some e) =
    (brier_score ps zs ≡ ok b) × (expected_calibration_error ps zs (bins_of bins) ≡ ok e)
ScoresOf ps zs bins _ _ = ⊥

-- The values of a report, from a table, a recall and pairs.
pub record IsReading (recall : Float64) (c : Confusion) (ps zs : List Float64) (bins : ℤ)
    (r : Report) : Type 0 where
  pub recall_is : r.extraction_recall ≡ recall
  pub sensitivity_is : r.sensitivity ≡ sensitivity c
  pub specificity_is : r.specificity ≡ specificity c
  pub false_support_is : r.false_support_rate ≡ false_support_rate c
  pub scores_are : ScoresOf ps zs bins r.brier_score r.ece

abbrev IsReadingOf : CalibrateInput → Tally → Report → Type 0
IsReadingOf input t =
    IsReading (quotient t.matched (max1 t.total)) t.confusion t.confidences t.outcomes input.bins

with_scores-IsReading :
    (input : CalibrateInput) (t : Tally) {s : Report}
    → with_scores input t (draft_report input t) ≡ ok s
    → IsReadingOf input t s
unfolding with_scores scores_of draft_report
with_scores-IsReading input t {s} e =
    elim (scores_of-cases (is_empty t.confidences) (brier_score t.confidences t.outcomes)
      (expected_calibration_error t.confidences t.outcomes (bins_of input.bins))
      (draft_report input t) {s = s} e) [
        | inl (none_left, same) ↦ subst (IsReadingOf input t) same record {
          recall_is = refl;
          sensitivity_is = refl;
          specificity_is = refl;
          false_support_is = refl;
          scores_are = none_left;
        }
        | inr (b, w, brier, calibrated, same) ↦ subst (IsReadingOf input t) same record {
          recall_is = refl;
          sensitivity_is = refl;
          specificity_is = refl;
          false_support_is = refl;
          scores_are = (brier, calibrated);
        }
      ]

seal-IsReading :
    (platform : Platform) (input : CalibrateInput) (t : Tally) (s : Report) {r : Report}
    → seal platform s ≡ ok r
    → IsReadingOf input t s
    → IsReadingOf input t r
unfolding seal
seal-IsReading platform input t s {r} e h =
    let (_, _, e₁) = >>=-eq-ok (validate_report_body s) _ e in
    let (digest, _, e₂) = >>=-eq-ok (wrap seal_failed (report_digest platform s)) _ e₁ in
    let same : record s { digest = digest } ≡ r = cc in
    subst (IsReadingOf input t) same record {
      recall_is = h.recall_is;
      sensitivity_is = h.sensitivity_is;
      specificity_is = h.specificity_is;
      false_support_is = h.false_support_is;
      scores_are = h.scores_are;
    }

calibrate-IsReading :
    (platform : Platform) (input : CalibrateInput) {r : Report}
    → calibrate platform input ≡ ok r
    → IsReadingOf input
        (tally input.reports (matcher_of input.matcher) empty_tally input.gold.claims)
        r
unfolding calibrate
calibrate-IsReading platform input {r} e =
    let (_, _, e₁) = >>=-eq-ok (wrap bad_gold (validate_gold_set input.gold)) _ e in
    let (_, _, e₂) =
      >>=-eq-ok (ensure (is_sha256 input.protocol_digest) bad_protocol_digest) _ e₁ in
    let (_, _, e₃) = >>=-eq-ok (check_reports input.protocol_digest input.reports) _ e₂ in
    let t = tally input.reports (matcher_of input.matcher) empty_tally input.gold.claims in
    let (s, scored, e₄) = >>=-eq-ok (with_scores input t (draft_report input t)) _ e₃ in
    seal-IsReading platform input t s {r = r} e₄ (with_scores-IsReading input t scored)

max1-suc : (n : ℕ) → max1 (0 + suc n) ≡ suc n
max1-suc n = ground arith

-- The recall of the loop is the recall of the function.
recall_lem :
    (gold : List GoldClaim) (predicted : List Types.ClaimAssessment) (matcher : Option ClaimMatcher)
    → quotient (0 + count_matched gold predicted (matcher_of matcher)) (max1 (0 + length gold))
      ≡ extraction_recall gold predicted matcher
unfolding extraction_recall quotient of_small count_matched judgekit.Base.Float64.Rounding.rounded
recall_lem [] predicted matcher = refl
recall_lem (g ∷ gs) predicted matcher =
    let n = 0 + count_matched (g ∷ gs) predicted (matcher_of matcher) in
    ap (quotient n) (max1-suc (length gs))
    ∙ ap (λ m. quotient m (suc (length gs)))
        (zero-add (count_matched (g ∷ gs) predicted (matcher_of matcher)))

-- If all gold claims belong to one instance that has a report, the report of `Calibrate` holds the
-- extraction recall, the rates of the confusion table and the scores of the probabilities that
-- `ExtractionRecall`, `ConfusionFromClaims` and `ConfidenceOutcomePairs` compute from the gold
-- claims and the verdicts of this report, with the same matcher.
pub calibrate-IsReading_single :
    (platform : Platform) (input : CalibrateInput) (id : Bytes) (report : Types.Report) {r : Report}
    → find id input.reports ≡ some report
    → All (λ (g : GoldClaim). g.instance_id ≡ id) input.gold.claims
    → calibrate platform input ≡ ok r
    → IsReading
        (extraction_recall input.gold.claims report.claim_results input.matcher)
        (confusion_from_claims input.gold.claims report.claim_results input.matcher)
        (confidence_outcome_pairs input.gold.claims report.claim_results input.matcher).0
        (confidence_outcome_pairs input.gold.claims report.claim_results input.matcher).1
        input.bins
        r
unfolding confusion_from_claims confidence_outcome_pairs
calibrate-IsReading_single platform input id report {r} found here e =
    let matches = matcher_of input.matcher in
    let all =
      tally-extended input.reports matches id report found empty_tally input.gold.claims here in
    let reading = calibrate-IsReading platform input {r = r} e in
    let known = subst (λ t. IsReadingOf input t r) all reading in
    rw (← recall_lem input.gold.claims report.claim_results input.matcher) known
