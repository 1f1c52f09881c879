-- ===== src/Calibration/Confusion/Rates.antt =====
-- The rates of a confusion table, and the recall, lie between 0 and 1.
use judgekit.Base.{
  Option, List, [], ◌∷◌, length, Option-cases, ℕ, ◌≤◌, ◌≡◌, refl, false, eqb, arith, Bool-cases,
  inl, inr,
}
use judgekit.Base.Float64.{of_small, outside}
use judgekit.Base.Float64.Bounds.{IsWithin, IsWithin-outside}
use judgekit.Judging.Aggregate.Quotient.{quotient-IsWithin}
use judgekit.Assessment.Types.{ClaimAssessment}
use judgekit.Calibration.Gold.{GoldClaim}
use judgekit.Calibration.Confusion.{
  Confusion, ClaimMatcher, rate, sensitivity, specificity, false_support_rate, find_predicted,
  matcher_of, count_matched, confusion_from_claims, total, extraction_recall,
}
use judgekit.Calibration.Confusion.Counts.{total-confusion_from_claims}

pub zero-IsWithin : (n : ℕ) → IsWithin n (of_small 0)
unfolding of_small
zero-IsWithin n = record { units = 0; is_finite = refl; bounded = omega arith }

pub rate-IsWithin : (num den : ℕ) → num ≤ den → IsWithin 1 (rate num den)
rate-IsWithin num den h = elim (Bool-cases (eqb den 0)) [
  | inl none_left ↦ rw none_left (zero-IsWithin 1)
  | inr some_left ↦ rw some_left (quotient-IsWithin num den (ground arith) h)
]

pub cells-IsWithin :
    (c : Confusion)
    → (outside 0 1 (sensitivity c) ≡ false)
      × (outside 0 1 (specificity c) ≡ false)
      × (outside 0 1 (false_support_rate c) ≡ false)
unfolding sensitivity specificity false_support_rate
cells-IsWithin c = (
  IsWithin-outside _ (rate-IsWithin c.entailed_as_entailed _ (omega arith)),
  IsWithin-outside _ (rate-IsWithin c.non_entailed_as_non_entailed _ (omega arith)),
  IsWithin-outside _ (rate-IsWithin c.non_entailed_as_entailed _ (omega arith)),
)

count_matched-le :
    (gold : List GoldClaim) (predicted : List ClaimAssessment) (matches : ClaimMatcher)
    → count_matched gold predicted matches ≤ length gold
unfolding count_matched
count_matched-le [] predicted matches = omega arith
count_matched-le (g ∷ gs) predicted matches =
    elim (Option-cases (find_predicted predicted g.claim matches)) [
      | inl e ↦ rw (e, count_matched) (omega (arith, count_matched-le gs predicted matches))
      | inr (verdict, e) ↦
          rw (e, count_matched) (omega (arith, count_matched-le gs predicted matches))
    ]

recall-IsWithin :
    (gold : List GoldClaim) (predicted : List ClaimAssessment) (matcher : Option ClaimMatcher)
    → IsWithin 1 (extraction_recall gold predicted matcher)
unfolding extraction_recall
recall-IsWithin [] predicted matcher = zero-IsWithin 1
recall-IsWithin (g ∷ gs) predicted matcher =
    quotient-IsWithin _ _ (omega arith) (count_matched-le (g ∷ gs) predicted (matcher_of matcher))

-- The cells of a table that `ConfusionFromClaims` makes add up to no more than the number of gold
-- claims, so no count of the table wraps around, and the three rates of this table and the
-- extraction recall of the same claims lie in [0, 1].
pub confusion_from_claims-rates :
    (gold : List GoldClaim) (predicted : List ClaimAssessment) (matcher : Option ClaimMatcher)
    → (total (confusion_from_claims gold predicted matcher) ≤ length gold)
      × (outside 0 1 (sensitivity (confusion_from_claims gold predicted matcher)) ≡ false)
      × (outside 0 1 (specificity (confusion_from_claims gold predicted matcher)) ≡ false)
      × (outside 0 1 (false_support_rate (confusion_from_claims gold predicted matcher)) ≡ false)
      × (outside 0 1 (extraction_recall gold predicted matcher) ≡ false)
confusion_from_claims-rates gold predicted matcher =
    let (sensitive, specific, support) =
      cells-IsWithin (confusion_from_claims gold predicted matcher) in
    (
      rw (total-confusion_from_claims gold predicted matcher)
          (count_matched-le gold predicted (matcher_of matcher)),
      sensitive,
      specific,
      support,
      IsWithin-outside _ (recall-IsWithin gold predicted matcher),
    )
