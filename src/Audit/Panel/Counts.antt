-- ===== src/Audit/Panel/Counts.antt =====
-- No more matches than keys.
use judgekit.Base.{◌≤◌, List, [], ◌∷◌, length, arith, Bool-cases, inl, inr}
use judgekit.Base.Text.{Bytes}
use judgekit.Base.Maps.{Map, find}
use judgekit.Assessment.Types.{ClaimAssessment}
use judgekit.Audit.Disagreement.{differs_by, label_differs}
use judgekit.Audit.Panel.{count_matches}

pub count_matches-le :
    (a b : Map ClaimAssessment) (ids : List Bytes) → count_matches a b ids ≤ length ids
unfolding count_matches
count_matches-le a b [] = omega arith
count_matches-le a b (id ∷ ids) =
    elim (Bool-cases (differs_by label_differs (find id a) (find id b))) [
      | inl e ↦ rw (e, count_matches) (omega (arith, count_matches-le a b ids))
      | inr e ↦ rw (e, count_matches) (omega (arith, count_matches-le a b ids))
    ]
