-- ===== src/Calibration/Confusion.antt =====
-- calibration/confusion.go and recall.go: which verdict answers a gold claim, the table of gold
-- labels against verdicts, and the rates made of it. A matcher that is nil is `none`.
pub mod Counts
pub mod Bags
pub mod Rates
use judgekit.Base.{
  ℕ, ◌+◌, Bool, true, false, not, ◌&&◌, Option, none, some, List, [], ◌∷◌, length, is_empty, eqb,
  if◌then◌else◌, Result, ok,
}
use judgekit.Base.Text.{Bytes, ◌==◌, trim_space}
use judgekit.Base.Maps.{Map, find, put}
use judgekit.Base.Float64.{Float64, of_small}
use judgekit.Assessment.Types.{Claim, ClaimAssessment, Report, entailed}
use judgekit.Judging.Aggregate.{quotient}
use judgekit.Calibration.Gold.{GoldClaim}

unfoldable pub is_entailed : Bytes → Bool
unfolding ◌==◌
is_entailed label = label == entailed

-- The cells are ints in Go. `Add` alone writes them here: a table counts pairs of a slice from zero,
-- and `confusion_from_claims-rates` bounds their sum by the length of the slice, which is an int. A
-- table that a caller fills with negative cells, or near the largest int, is not one of these.
pub record Confusion : Type 0 where
  pub entailed_as_entailed : ℕ
  pub entailed_as_non_entailed : ℕ
  pub non_entailed_as_entailed : ℕ
  pub non_entailed_as_non_entailed : ℕ

abbrev pub empty_confusion : Confusion
empty_confusion = record {
  entailed_as_entailed = 0;
  entailed_as_non_entailed = 0;
  non_entailed_as_entailed = 0;
  non_entailed_as_non_entailed = 0;
}

-- The cell of a pair of tests is counted up.
abbrev pub add_cell : Confusion → (gold predicted : Bool) → Confusion
add_cell c true true = record c { entailed_as_entailed = c.entailed_as_entailed + 1 }
add_cell c true false = record c { entailed_as_non_entailed = c.entailed_as_non_entailed + 1 }
add_cell c false true = record c { non_entailed_as_entailed = c.non_entailed_as_entailed + 1 }
add_cell c false false = record c {
  non_entailed_as_non_entailed = c.non_entailed_as_non_entailed + 1;
}

unfoldable pub add : Confusion → (gold predicted : Bytes) → Confusion
unfolding is_entailed
add c gold predicted = add_cell c (is_entailed gold) (is_entailed predicted)

unfoldable pub total : Confusion → ℕ
total c =
    c.entailed_as_entailed + c.entailed_as_non_entailed + c.non_entailed_as_entailed
    + c.non_entailed_as_non_entailed

-- A count over a denominator, 0 if that is 0.
abbrev pub rate : (num denom : ℕ) → Float64
rate num denom = if eqb denom 0 then of_small 0 else quotient num denom

unfoldable pub sensitivity : Confusion → Float64
unfolding of_small quotient
sensitivity c = rate c.entailed_as_entailed (c.entailed_as_entailed + c.entailed_as_non_entailed)

unfoldable pub specificity : Confusion → Float64
unfolding of_small quotient
specificity c =
    rate c.non_entailed_as_non_entailed
      (c.non_entailed_as_non_entailed + c.non_entailed_as_entailed)

unfoldable pub false_support_rate : Confusion → Float64
unfolding of_small quotient
false_support_rate c =
    rate c.non_entailed_as_entailed (c.entailed_as_entailed + c.non_entailed_as_entailed)

abbrev pub ClaimMatcher : Type 0
ClaimMatcher = Claim → ClaimAssessment → Bool

unfoldable pub match_by_id : ClaimMatcher
unfolding ◌==◌
match_by_id gold predicted = not (is_empty gold.id) && gold.id == predicted.claim_id

-- `if matcher == nil { matcher = MatchByID }`
unfoldable pub matcher_of : Option ClaimMatcher → ClaimMatcher
unfolding match_by_id
matcher_of none = match_by_id
matcher_of (some matcher) = matcher

unfoldable pub claims_by_id : Map Claim → List Claim → Map Claim
unfolding put
claims_by_id m [] = m
claims_by_id m (c ∷ cs) = claims_by_id (put c.id c m) cs

-- `strings.EqualFold`, of the package `strings`, is a parameter.
unfoldable pub match_by_text : (equal_fold : Bytes → Bytes → Bool) → Report → ClaimMatcher
unfolding claims_by_id find trim_space
match_by_text equal_fold report gold predicted =
    elim (find predicted.claim_id (claims_by_id [] report.claims)) [
      | none ↦ false
      | some claim ↦ equal_fold (trim_space gold.text) (trim_space claim.text)
    ]

unfoldable pub find_predicted : List ClaimAssessment → Claim → ClaimMatcher → Option ClaimAssessment
find_predicted [] gold matches = none
find_predicted (a ∷ rest) gold matches =
    let later = find_predicted rest gold matches in if matches gold a then some a else later

-- The loop of `ConfusionFromClaims`, from the cells counted so far.
unfoldable pub count_claims :
    Confusion → List GoldClaim → List ClaimAssessment → ClaimMatcher → Confusion
unfolding find_predicted add
count_claims c [] predicted matches = c
count_claims c (g ∷ gs) predicted matches = elim (find_predicted predicted g.claim matches) [
  | none ↦ count_claims c gs predicted matches
  | some verdict ↦ count_claims (add c g.label verdict.label) gs predicted matches
]

unfoldable pub confusion_from_claims :
    List GoldClaim → List ClaimAssessment → Option ClaimMatcher → Confusion
unfolding count_claims matcher_of
confusion_from_claims gold predicted matcher =
    count_claims empty_confusion gold predicted (matcher_of matcher)

unfoldable pub count_matched : List GoldClaim → List ClaimAssessment → ClaimMatcher → ℕ
unfolding find_predicted
count_matched [] predicted matches = 0
count_matched (g ∷ gs) predicted matches =
    let n = count_matched gs predicted matches in
    elim (find_predicted predicted g.claim matches) [ none ↦ n | some verdict ↦ n + 1 ]

unfoldable pub extraction_recall :
    List GoldClaim → List ClaimAssessment → Option ClaimMatcher → Float64
unfolding count_matched matcher_of of_small quotient
extraction_recall gold predicted matcher =
    if is_empty gold
    then of_small 0
    else quotient (count_matched gold predicted (matcher_of matcher)) (length gold)
