-- ===== src/Calibration/Report/Tallies.antt =====
-- What holds of a tally throughout the loop over the gold claims.
use judgekit.Base.{
  ℕ, ◌+◌, ◌≤◌, ◌≡◌, refl, subst, true, List, [], ◌∷◌, length, length-append, All, All-append, arith,
  Option-cases, Bool-cases, inl, inr,
}
use judgekit.Base.Maps.{Map}
use judgekit.Base.Float64.{of_small, eq_float}
use judgekit.Assessment.Types
use judgekit.Calibration.Gold.{GoldClaim}
use judgekit.Calibration.Confusion.{ClaimMatcher, is_entailed}
use judgekit.Calibration.Scoring.{is_outcome, outcome}
use judgekit.Calibration.Report.{
  Tally, empty_tally, add_pair, add_match, verdict_of, tally_claim, tally,
}

-- After `n` gold claims: no more matches than claims, no more probabilities than matches, an
-- outcome for each probability.
pub record IsTally (n : ℕ) (t : Tally) : Type 0 where
  pub counted : t.total ≡ n
  pub matched : t.matched ≤ t.total
  pub scored : length t.confidences ≤ t.matched
  pub paired : length t.confidences ≡ length t.outcomes
  pub outcomes : All (λ z. is_outcome z ≡ true) t.outcomes

outcome-is_outcome : (g : GoldClaim) → is_outcome (outcome g) ≡ true
unfolding outcome is_outcome eq_float of_small
outcome-is_outcome g = elim (Bool-cases (is_entailed g.label)) [
  | inl e ↦ rw e refl
  | inr e ↦ rw e refl
]

add_match-IsTally :
    (verdict : Types.ClaimAssessment) (g : GoldClaim) (n : ℕ) (t : Tally)
    → IsTally n t
    → IsTally (n + 1) (add_match verdict g (record t { total = t.total + 1 }))
unfolding add_match add_pair
add_match-IsTally verdict g n t h = elim (Option-cases verdict.entailed_probability) [
  | inl e ↦
      rw (e, add_pair)
        (record {
          counted = omega (arith, h.counted);
          matched = omega (arith, h.matched);
          scored = omega (arith, h.scored);
          paired = h.paired;
          outcomes = h.outcomes;
        })
  | inr (p, e) ↦
      rw (e, add_pair)
        (record {
          counted = omega (arith, h.counted);
          matched = omega (arith, h.matched);
          scored = omega (arith, h.scored, length-append t.confidences (p ∷ []));
          paired = omega (
            arith,
            h.paired,
            length-append t.confidences (p ∷ []),
            length-append t.outcomes (outcome g ∷ []),
          );
          outcomes = All-append _ t.outcomes (outcome g ∷ []) h.outcomes (outcome-is_outcome g, tt);
        })
]

tally_claim-IsTally :
    (reports : Map Types.Report) (matches : ClaimMatcher) (g : GoldClaim) (n : ℕ) (t : Tally)
    → IsTally n t
    → IsTally (n + 1) (tally_claim reports matches g t)
unfolding tally_claim
tally_claim-IsTally reports matches g n t h = elim (Option-cases (verdict_of reports matches g)) [
  | inl e ↦
      rw (e, tally_claim)
        (record {
          counted = omega (arith, h.counted);
          matched = omega (arith, h.matched);
          scored = h.scored;
          paired = h.paired;
          outcomes = h.outcomes;
        })
  | inr (verdict, e) ↦ rw (e, tally_claim) (add_match-IsTally verdict g n t h)
]

tally-IsTally :
    (reports : Map Types.Report) (matches : ClaimMatcher) (gs : List GoldClaim) (n m : ℕ)
    (t : Tally)
    → n + length gs ≡ m
    → IsTally n t
    → IsTally m (tally reports matches t gs)
unfolding tally
tally-IsTally reports matches [] n m t e h =
    let same : n ≡ m = omega (arith, e) in subst (λ k. IsTally k t) same h
tally-IsTally reports matches (g ∷ gs) n m t e h =
    tally-IsTally reports matches gs (n + 1) m _ (omega (arith, e))
      (tally_claim-IsTally reports matches g n t h)

-- The tally of all gold claims.
pub tally-all :
    (reports : Map Types.Report) (matches : ClaimMatcher) (gs : List GoldClaim)
    → IsTally (length gs) (tally reports matches empty_tally gs)
tally-all reports matches gs =
    tally-IsTally reports matches gs 0 (length gs) empty_tally (omega arith) record {
      counted = refl;
      matched = omega arith;
      scored = omega arith;
      paired = refl;
      outcomes = tt;
    }
