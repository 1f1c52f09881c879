-- ===== src/Calibration/Report/Outcome.antt =====
-- Every input that passes the first checks of `Calibrate`.
use judgekit.Base.{
  ℕ, ◌≤◌, ◌<◌, ◌^◌, ◌≡◌, refl, Bool, true, false, some, length, is_empty, Result, ok, err, ◌>>=◌,
  Passes, wrap_iff, arith,
}
use judgekit.Base.Text.{is_sha256}
use judgekit.Base.Int.{ℤ, pos, negsuc, lt_int}
use judgekit.Base.Float64.{Float64, outside}
use judgekit.Base.Float64.Bounds.{IsWithin, IsWithin-outside}
use judgekit.CanonicalJson.{Platform}
use judgekit.Judging.Aggregate.{quotient}
use judgekit.Calibration.Gold.{validate_gold_set}
use judgekit.Calibration.Gold.Keys.{validate_gold_set_iff}
use judgekit.Calibration.Confusion.{matcher_of}
use judgekit.Calibration.Confusion.Rates.{cells-IsWithin}
use judgekit.Judging.Aggregate.Quotient.{quotient-IsWithin}
use judgekit.Calibration.Scoring.{
  ScoreError, brier_confidence, brier_score, expected_calibration_error,
}
use judgekit.Calibration.Scoring.Pairs.{expected_calibration_error-ok}
use judgekit.Calibration.Scoring.Brier.{brier_score-IsWithin}
use judgekit.Calibration.Report.{
  Tally, Report, CalibrateInput, seal, draft_report, with_scores, tally, empty_tally, max1, bins_of,
  calibrate, check_reports, bad_gold,
}
use judgekit.Calibration.Report.Tallies.{IsTally, tally-all}
use judgekit.Calibration.Report.Valid.{
  scores_of, IsRated, CalibrateOutcome, seal-outcome, scores-fail, outside→outside_unit,
}

recall-IsWithin : (n : ℕ) (t : Tally) → IsTally n t → IsWithin 1 (quotient t.matched (max1 t.total))
recall-IsWithin n t h =
    quotient-IsWithin t.matched (max1 t.total) (at_least_one t.total)
      (at_most t.matched t.total h.matched)
  where
    at_least_one : (n : ℕ) → 0 < max1 n
    at_least_one n = ground arith

    at_most : (m n : ℕ) → m ≤ n → m ≤ max1 n
    at_most m n h = ground (arith, h)

bins_of-positive : (bins : ℤ) → lt_int (bins_of bins) (pos 1) ≡ false
bins_of-positive (pos n) = ground arith
bins_of-positive (negsuc n) = ground arith

module _ (platform : Platform) (input : CalibrateInput)
    (is_protocol : is_sha256 input.protocol_digest ≡ true)
    (is_dataset : is_sha256 input.gold.digest ≡ true) where
  draft-IsRated : (n : ℕ) (t : Tally) → IsTally n t → IsRated (draft_report input t)
  unfolding draft_report
  draft-IsRated n t h =
      let (sensitivity, specificity, support) = cells-IsWithin t.confusion in
      record {
        version = refl;
        protocol_digest = is_protocol;
        dataset_digest = is_dataset;
        recall = IsWithin-outside _ (recall-IsWithin n t h);
        sensitivity = sensitivity;
        specificity = specificity;
        false_support = support;
        brier = refl;
      }

  IsRated-with :
      (r : Report) (v w : Float64)
      → IsRated r
      → outside 0 1 v ≡ false
      → IsRated (record r { brier_score = some v; ece = some w })
  IsRated-with r v w h within = record {
    version = h.version;
    protocol_digest = h.protocol_digest;
    dataset_digest = h.dataset_digest;
    recall = h.recall;
    sensitivity = h.sensitivity;
    specificity = h.specificity;
    false_support = h.false_support;
    brier = rw (outside→outside_unit v within) refl;
  }

  scores_of-outcome :
      (empty : Bool) (brier ece : Result ScoreError Float64) (r : Report)
      → IsRated r
      → r.protocol_digest ≡ input.protocol_digest
      → r.dataset_digest ≡ input.gold.digest
      → ((e : ScoreError) → brier ≡ err e → (j : ℕ) × (e ≡ brier_confidence j))
      → ((v : Float64) → brier ≡ ok v → (outside 0 1 v ≡ false) × ((w : Float64) × (ece ≡ ok w)))
      → CalibrateOutcome platform input (scores_of empty brier ece r >>= λ s. seal platform s)
  unfolding scores_of
  scores_of-outcome true brier ece r h p d failing scored = seal-outcome platform input r h p d
  scores_of-outcome false (err e) ece r h p d failing scored =
      let (j, same) = failing e refl in rw same tt
  scores_of-outcome false (ok v) (ok w) r h p d failing scored =
      seal-outcome platform input _ (IsRated-with r v w h (scored v refl).0) p d
  scores_of-outcome false (ok v) (err e) r h p d failing scored =
      let (w, absent) = (scored v refl).1 in cc

  scored-outcome :
      (n : ℕ) (t : Tally)
      → IsTally n t
      → n < 2 ^ 53
      → CalibrateOutcome platform input
          (with_scores input t (draft_report input t) >>= λ r. seal platform r)
  unfolding with_scores scores_of draft_report
  scored-outcome n t h small =
      scores_of-outcome (is_empty t.confidences) (brier_score t.confidences t.outcomes)
        (expected_calibration_error t.confidences t.outcomes (bins_of input.bins))
        (draft_report input t) (draft-IsRated n t h) refl refl
        (λ e failed. scores-fail n t {e = e} h failed)
        (λ v made. (
          brier_score-IsWithin t.confidences t.outcomes {v = v}
              (omega (arith, small, h.counted, h.matched, h.scored)) made,
          (
            _,
            expected_calibration_error-ok t.confidences t.outcomes (bins_of input.bins) {v = v}
                (bins_of-positive input.bins) made,
          ),
        ))

-- When the gold set, the protocol digest and the reports are accepted, and there are fewer than
-- 2 ^ 53 gold claims, `Calibrate` either returns a report that is valid, names the protocol and the
-- gold set and carries its own digest, or fails at a probability outside [0, 1], at a calibration
-- error outside [0, 1], or at a value without JSON: no rate, no Brier score and no outcome is ever
-- refused.
pub calibrate-CalibrateOutcome :
    (platform : Platform) (input : CalibrateInput)
    → Passes (validate_gold_set input.gold)
    → is_sha256 input.protocol_digest ≡ true
    → Passes (check_reports input.protocol_digest input.reports)
    → length input.gold.claims < 2 ^ 53
    → CalibrateOutcome platform input (calibrate platform input)
unfolding calibrate
calibrate-CalibrateOutcome platform input gold protocol reports small =
    let whole = (validate_gold_set_iff input.gold).0 gold in
    let t = tally input.reports (matcher_of input.matcher) empty_tally input.gold.claims in
    let counted = tally-all input.reports (matcher_of input.matcher) input.gold.claims in
    let done = scored-outcome platform input protocol whole.digest _ t counted small in
    rw ((wrap_iff bad_gold (validate_gold_set input.gold)).1 gold, calibrate)
      (rw protocol (rw reports done))
