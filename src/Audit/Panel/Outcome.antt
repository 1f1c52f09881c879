-- ===== src/Audit/Panel/Outcome.antt =====
-- What a panel returns.
use judgekit.Base.{some, ◌≡◌, List, [], ◌∷◌, ok}
use judgekit.Base.Text.{Bytes}
use judgekit.Base.Maps.{Map, find}
use judgekit.Eval.Types.{Instance}
use judgekit.Assessment.Types.{Report}
use judgekit.Judging.Effects.{Effect}
use judgekit.Audit.Panel.{PanelMember, Panel, PanelResult, member_ids}
use judgekit.Audit.Panel.Matrix.{IsMatrix}
use judgekit.Audit.Panel.Agreement.{Pending, Filled}

-- The members run one after the other, from a world: each has a judge, whose answer in its world is
-- the report under the member's id.
abbrev pub Answered : {W E : Type 0} → Instance → W → List (PanelMember W E) → Map Report → Type 0
Answered inst w [] reports = Unit {0}
Answered {W} {E} inst w (m ∷ ms) reports =
    (judge : Instance → Effect W E Report) × (report : Report) × (m.judge ≡ some judge)
    × ((judge inst w).0 ≡ ok report)
    × (find m.id reports ≡ some report)
    × Answered inst (judge inst w).1 ms reports

-- The answer of every member, and the matrix of their agreements.
pub record IsPanelResult {W E : Type 0} (members : List (PanelMember W E)) (inst : Instance) (w : W)
    (r : PanelResult) : Type 0 where
  pub instance_is : r.instance_id ≡ inst.id
  pub answered : Answered inst w members r.reports
  pub matrix : IsMatrix (member_ids members) r.agreement_matrix
  pub filled :
      (i j : Bytes) → Pending (member_ids members) i j → Filled r.reports r.agreement_matrix i j
