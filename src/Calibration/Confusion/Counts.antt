-- ===== src/Calibration/Confusion/Counts.antt =====
-- The table as counts of matched pairs.
use judgekit.Base.{
  ℕ, ◌+◌, ◌≡◌, refl, ap, ◌∙◌, Bool, true, false, not, ◌&&◌, Option, none, some, List, [], ◌∷◌,
  length, if◌then◌else◌, arith, Option-cases, inl, inr,
}
use judgekit.Assessment.Types.{ClaimAssessment}
use judgekit.Calibration.Gold.{GoldClaim}
use judgekit.Calibration.Confusion.{
  Confusion, ClaimMatcher, matcher_of, is_entailed, find_predicted, add, add_cell, total,
  empty_confusion, count_claims, confusion_from_claims, count_matched,
}

-- The gold claims that have a verdict: whether each is entailed by its gold label, and by its
-- verdict.
unfoldable pub verdict_pairs :
    List GoldClaim → List ClaimAssessment → ClaimMatcher → List (Bool × Bool)
unfolding find_predicted is_entailed
verdict_pairs [] predicted matches = []
verdict_pairs (g ∷ gs) predicted matches =
    let rest = verdict_pairs gs predicted matches in
    elim (find_predicted predicted g.claim matches) [
      | none ↦ rest
      | some verdict ↦ (is_entailed g.label, is_entailed verdict.label) ∷ rest
    ]

abbrev pub same_pair : Bool → Bool → Bool × Bool → Bool
same_pair true true (a, b) = a && b
same_pair true false (a, b) = a && not b
same_pair false true (a, b) = not a && b
same_pair false false (a, b) = not a && not b

-- How often a pair occurs.
unfoldable pub occurrences : (gold predicted : Bool) → List (Bool × Bool) → ℕ
occurrences g p [] = 0
occurrences g p (x ∷ xs) = let n = occurrences g p xs in if same_pair g p x then n + 1 else n

-- The table that counts pairs.
unfoldable pub table : List (Bool × Bool) → Confusion
unfolding occurrences
table xs = record {
  entailed_as_entailed = occurrences true true xs;
  entailed_as_non_entailed = occurrences true false xs;
  non_entailed_as_entailed = occurrences false true xs;
  non_entailed_as_non_entailed = occurrences false false xs;
}

-- The sum of two tables, cell by cell.
abbrev plus : Confusion → Confusion → Confusion
plus c d = record {
  entailed_as_entailed = c.entailed_as_entailed + d.entailed_as_entailed;
  entailed_as_non_entailed = c.entailed_as_non_entailed + d.entailed_as_non_entailed;
  non_entailed_as_entailed = c.non_entailed_as_entailed + d.non_entailed_as_entailed;
  non_entailed_as_non_entailed = c.non_entailed_as_non_entailed + d.non_entailed_as_non_entailed;
}

pub Confusion-ext :
    (c d : Confusion)
    → c.entailed_as_entailed ≡ d.entailed_as_entailed
    → c.entailed_as_non_entailed ≡ d.entailed_as_non_entailed
    → c.non_entailed_as_entailed ≡ d.non_entailed_as_entailed
    → c.non_entailed_as_non_entailed ≡ d.non_entailed_as_non_entailed
    → c ≡ d
Confusion-ext c d e₁ e₂ e₃ e₄ = λ i. record {
  entailed_as_entailed = e₁ i;
  entailed_as_non_entailed = e₂ i;
  non_entailed_as_entailed = e₃ i;
  non_entailed_as_non_entailed = e₄ i;
}

add_cell-plus :
    (c : Confusion) (g p : Bool) (xs : List (Bool × Bool))
    → plus (add_cell c g p) (table xs) ≡ plus c (table ((g, p) ∷ xs))
unfolding table occurrences
add_cell-plus c true true xs =
    Confusion-ext _ _ (omega arith) (omega arith) (omega arith) (omega arith)
add_cell-plus c true false xs =
    Confusion-ext _ _ (omega arith) (omega arith) (omega arith) (omega arith)
add_cell-plus c false true xs =
    Confusion-ext _ _ (omega arith) (omega arith) (omega arith) (omega arith)
add_cell-plus c false false xs =
    Confusion-ext _ _ (omega arith) (omega arith) (omega arith) (omega arith)

count_claims-plus :
    (c : Confusion) (gold : List GoldClaim) (predicted : List ClaimAssessment)
    (matches : ClaimMatcher)
    → count_claims c gold predicted matches ≡ plus c (table (verdict_pairs gold predicted matches))
unfolding count_claims verdict_pairs add table occurrences
count_claims-plus c [] predicted matches =
    Confusion-ext _ _ (omega arith) (omega arith) (omega arith) (omega arith)
count_claims-plus c (g ∷ gs) predicted matches =
    elim (Option-cases (find_predicted predicted g.claim matches)) [
      | inl e ↦ rw (e, count_claims, verdict_pairs) (count_claims-plus c gs predicted matches)
      | inr (verdict, e) ↦
          rw (e, count_claims, verdict_pairs)
            (count_claims-plus (add c g.label verdict.label) gs predicted matches
              ∙ add_cell-plus c (is_entailed g.label) (is_entailed verdict.label)
                  (verdict_pairs gs predicted matches))
    ]

plus-empty : (c : Confusion) → plus empty_confusion c ≡ c
plus-empty c = Confusion-ext _ _ (omega arith) (omega arith) (omega arith) (omega arith)

-- The table of `ConfusionFromClaims` counts the matched pairs.
pub confusion_from_claims-table :
    (gold : List GoldClaim) (predicted : List ClaimAssessment) (matcher : Option ClaimMatcher)
    → confusion_from_claims gold predicted matcher
      ≡ table (verdict_pairs gold predicted (matcher_of matcher))
unfolding confusion_from_claims
confusion_from_claims-table gold predicted matcher =
    count_claims-plus empty_confusion gold predicted (matcher_of matcher) ∙ plus-empty _

total-table : (xs : List (Bool × Bool)) → total (table xs) ≡ length xs
unfolding total table occurrences
total-table [] = refl
total-table ((true, true) ∷ xs) = omega (arith, total-table xs)
total-table ((true, false) ∷ xs) = omega (arith, total-table xs)
total-table ((false, true) ∷ xs) = omega (arith, total-table xs)
total-table ((false, false) ∷ xs) = omega (arith, total-table xs)

length-verdict_pairs :
    (gold : List GoldClaim) (predicted : List ClaimAssessment) (matches : ClaimMatcher)
    → length (verdict_pairs gold predicted matches) ≡ count_matched gold predicted matches
unfolding verdict_pairs count_matched
length-verdict_pairs [] predicted matches = refl
length-verdict_pairs (g ∷ gs) predicted matches =
    elim (Option-cases (find_predicted predicted g.claim matches)) [
      | inl e ↦ rw (e, verdict_pairs, count_matched) (length-verdict_pairs gs predicted matches)
      | inr (verdict, e) ↦
          rw (e, verdict_pairs, count_matched)
            (omega (arith, length-verdict_pairs gs predicted matches))
    ]

-- As many pairs are counted as gold claims have a verdict.
pub total-confusion_from_claims :
    (gold : List GoldClaim) (predicted : List ClaimAssessment) (matcher : Option ClaimMatcher)
    → total (confusion_from_claims gold predicted matcher)
      ≡ count_matched gold predicted (matcher_of matcher)
total-confusion_from_claims gold predicted matcher =
    ap total (confusion_from_claims-table gold predicted matcher)
    ∙ total-table (verdict_pairs gold predicted (matcher_of matcher))
    ∙ length-verdict_pairs gold predicted (matcher_of matcher)
