-- ===== src/Calibration/Report/Single.antt =====
-- On the gold claims of one instance `Calibrate` computes what the functions on one report compute.
use mathlib.Core.List.{append_assoc, append-nil}
use judgekit.Base.{
  ◌+◌, ◌≡◌, refl, sym, ap, ◌∙◌, some, List, [], ◌∷◌, ◌++◌, length, All, arith, Option-cases, inl,
  inr,
}
use judgekit.Base.Text.{Bytes}
use judgekit.Base.Maps.{Map, find}
use judgekit.Assessment.Types
use judgekit.Calibration.Gold.{GoldClaim}
use judgekit.Calibration.Confusion.{ClaimMatcher, find_predicted, count_claims, count_matched}
use judgekit.Calibration.Scoring.{pairs_from, outcome}
use judgekit.Calibration.Report.{Tally, tally, tally_claim, verdict_of, add_match, add_pair}

Tally-ext :
    (s t : Tally)
    → s.confusion ≡ t.confusion
    → s.matched ≡ t.matched
    → s.total ≡ t.total
    → s.confidences ≡ t.confidences
    → s.outcomes ≡ t.outcomes
    → s ≡ t
Tally-ext s t a b c d e =
    λ i. record { confusion = a i; matched = b i; total = c i; confidences = d i; outcomes = e i }

module _ (reports : Map Types.Report) (matches : ClaimMatcher) (id : Bytes) (report : Types.Report)
    (found : find id reports ≡ some report) where
  abbrev pub verdicts : List Types.ClaimAssessment
  verdicts = report.claim_results

  verdict_of-here :
      (g : GoldClaim)
      → g.instance_id ≡ id
      → verdict_of reports matches g ≡ find_predicted verdicts g.claim matches
  unfolding verdict_of
  verdict_of-here g e = rw (ap (λ k. find k reports) e ∙ found, verdict_of) refl

  -- The tally after more gold claims of the instance.
  abbrev pub extended : Tally → List GoldClaim → Tally
  extended t gs = record {
    confusion = count_claims t.confusion gs verdicts matches;
    matched = t.matched + count_matched gs verdicts matches;
    total = t.total + length gs;
    confidences = t.confidences ++ (pairs_from gs verdicts matches).0;
    outcomes = t.outcomes ++ (pairs_from gs verdicts matches).1;
  }

  extended-step :
      (t : Tally) (g : GoldClaim) (gs : List GoldClaim)
      → g.instance_id ≡ id
      → extended (tally_claim reports matches g t) gs ≡ extended t (g ∷ gs)
  unfolding tally_claim count_claims count_matched pairs_from add_match add_pair
  extended-step t g gs e = elim (Option-cases (find_predicted verdicts g.claim matches)) [
    | inl missing ↦
        rw (verdict_of-here g e ∙ missing, tally_claim)
          (rw (missing, count_claims, count_matched, pairs_from)
            (Tally-ext _ _ refl refl (omega arith) refl refl))
    | inr (v, there) ↦
        rw (verdict_of-here g e ∙ there, tally_claim)
          (rw (there, count_claims, count_matched, pairs_from)
            (elim (Option-cases v.entailed_probability) [
              | inl silent ↦
                  rw (silent, add_match, add_pair, pairs_from)
                    (Tally-ext _ _ refl (omega arith) (omega arith) refl refl)
              | inr (p, said) ↦
                  rw (said, add_match, add_pair, pairs_from)
                    (Tally-ext _ _ refl (omega arith) (omega arith)
                      (append_assoc t.confidences (p ∷ []) _)
                      (append_assoc t.outcomes (outcome g ∷ []) _))
            ]))
  ]

  pub tally-extended :
      (t : Tally) (gs : List GoldClaim)
      → All (λ (g : GoldClaim). g.instance_id ≡ id) gs
      → tally reports matches t gs ≡ extended t gs
  unfolding tally count_claims count_matched pairs_from
  tally-extended t [] h =
      Tally-ext _ _ refl (omega arith) (omega arith) (sym (append-nil _)) (sym (append-nil _))
  tally-extended t (g ∷ gs) (e, later) =
      tally-extended (tally_claim reports matches g t) gs later ∙ extended-step t g gs e
