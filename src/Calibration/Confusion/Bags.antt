-- ===== src/Calibration/Confusion/Bags.antt =====
-- The table does not depend on the order of the gold claims: it is a function on bags of them.
use mathlib.Core.List.Perm
use mathlib.Core.List.{Perm, foldr}
use mathlib.Core.Quot
use mathlib.Core.Quot.{Quot, Quot-set}
use native.Mathlib.Nat.{ℕ_set}
use judgekit.Base.{
  ℕ, ◌+◌, ◌≡◌, refl, sym, ◌∙◌, Bool, true, false, Option, none, some, List, [], ◌∷◌, if◌then◌else◌,
  arith, Option-cases, inl, inr,
}
use judgekit.Assessment.Types.{ClaimAssessment}
use judgekit.Calibration.Gold.{GoldClaim}
use judgekit.Calibration.Confusion.{
  Confusion, ClaimMatcher, matcher_of, find_predicted, total, confusion_from_claims, is_entailed,
  count_matched,
}
use judgekit.Calibration.Confusion.Counts.{
  verdict_pairs, same_pair, occurrences, table, Confusion-ext, confusion_from_claims-table,
  total-confusion_from_claims,
}

module _ (predicted : List ClaimAssessment) (matches : ClaimMatcher) where
  -- What one gold claim adds to a cell.
  weight : (g p : Bool) → GoldClaim → ℕ
  unfolding find_predicted is_entailed
  weight g p claim = elim (find_predicted predicted claim.claim matches) [
    | none ↦ 0
    | some verdict ↦
        if same_pair g p (is_entailed claim.label, is_entailed verdict.label) then 1 else 0
  ]

  occurrences-weight :
      (g p : Bool) (x : GoldClaim) (xs : List GoldClaim)
      → occurrences g p (verdict_pairs (x ∷ xs) predicted matches)
        ≡ weight g p x + occurrences g p (verdict_pairs xs predicted matches)
  unfolding weight verdict_pairs occurrences
  occurrences-weight g p x xs = elim (Option-cases (find_predicted predicted x.claim matches)) [
    | inl e ↦ rw (e, verdict_pairs, weight) (omega arith)
    | inr (verdict, e) ↦ rw (e, verdict_pairs, weight) (ground arith)
  ]

  -- A cell is the sum of the weights.
  weigh : (g p : Bool) → GoldClaim → ℕ → ℕ
  weigh g p x n = weight g p x + n

  occurrences-foldr :
      (g p : Bool) (xs : List GoldClaim)
      → occurrences g p (verdict_pairs xs predicted matches) ≡ foldr (weigh g p) 0 xs
  unfolding weigh occurrences verdict_pairs
  occurrences-foldr g p [] = refl
  occurrences-foldr g p (x ∷ xs) =
      omega (arith, occurrences-weight g p x xs, occurrences-foldr g p xs)

  weigh_comm :
      (g p : Bool) (x y : GoldClaim) (n : ℕ)
      → weigh g p x (weigh g p y n) ≡ weigh g p y (weigh g p x n)
  unfolding weigh
  weigh_comm g p x y n = omega arith

  table-perm :
      (xs ys : List GoldClaim)
      → Perm xs ys
      → table (verdict_pairs xs predicted matches) ≡ table (verdict_pairs ys predicted matches)
  unfolding table
  table-perm xs ys h =
      Confusion-ext _ _ (cell true true) (cell true false) (cell false true) (cell false false)
    where
      cell :
          (g p : Bool)
          → occurrences g p (verdict_pairs xs predicted matches)
            ≡ occurrences g p (verdict_pairs ys predicted matches)
      cell g p =
          occurrences-foldr g p xs
          ∙ Perm.foldr-eq ℕ_set (weigh g p) (weigh_comm g p) h 0
          ∙ sym (occurrences-foldr g p ys)

-- Gold claims up to order.
abbrev pub GoldBag : Type 0
GoldBag = Quot (λ (xs : List GoldClaim) (ys : List GoldClaim). Perm xs ys)

Confusion-set : IsSet Confusion
Confusion-set = hlevel

-- The table of a bag.
pub bag_table : List ClaimAssessment → ClaimMatcher → GoldBag → Confusion
unfolding table verdict_pairs
bag_table predicted matches =
    Quot.lift Confusion-set (λ gold. table (verdict_pairs gold predicted matches))
      (table-perm predicted matches)

-- The table of `ConfusionFromClaims` is a function of the bag of gold claims, so their order does
-- not matter, and it counts as many pairs as gold claims have a verdict.
pub confusion_from_claims-bag :
    (gold : List GoldClaim) (predicted : List ClaimAssessment) (matcher : Option ClaimMatcher)
    → (confusion_from_claims gold predicted matcher
        ≡ bag_table predicted (matcher_of matcher) (Quot.mk gold))
      × (total (confusion_from_claims gold predicted matcher)
          ≡ count_matched gold predicted (matcher_of matcher))
      × ((other : List GoldClaim)
          → Perm gold other
          → confusion_from_claims other predicted matcher
            ≡ confusion_from_claims gold predicted matcher)
unfolding bag_table
confusion_from_claims-bag gold predicted matcher = (
  confusion_from_claims-table gold predicted matcher,
  total-confusion_from_claims gold predicted matcher,
  λ other same.
      confusion_from_claims-table other predicted matcher
      ∙ sym (table-perm predicted (matcher_of matcher) gold other same)
      ∙ sym (confusion_from_claims-table gold predicted matcher),
)
