-- ===== src/Audit/Panel.antt =====
-- audit/panel.go: several judges on one instance, and how often they agree. The members run in the
-- order of the panel here; they share nothing but the outside world.
pub mod Counts
pub mod Matrix
pub mod Agreement
pub mod Outcome
use judgekit.Base.{
  ℕ, ◌+◌, Bool, true, false, not, ◌&&◌, Option, none, some, List, [], ◌∷◌, map, is_empty, eqb, ltb,
  if◌then◌else◌, Result, ok, err,
}
use judgekit.Base as Base
use judgekit.Base.Text.{Bytes, bytes}
use judgekit.Base.Keys.{scan}
use judgekit.Base.Maps.{Map, find, put}
use judgekit.Base.Float64.{Float64, of_small}
use judgekit.CanonicalJson.{Platform}
use judgekit.Identifier
use judgekit.Identifier.{IdentifierError}
use judgekit.Eval.Types.{Instance}
use judgekit.Eval.Validate.{EvalError, validate_instance}
use judgekit.Assessment.Types.{ClaimAssessment, Report}
use judgekit.Judging.Aggregate.{quotient}
use judgekit.Judging.Effects.{Effect, bind_result, ◌>>=◌, ◌>>◌, lift, wrap_error}
use judgekit.Audit.Disagreement.{index_claims, union_keys, label_differs, differs_by}

abbrev pub majority_label : Bytes
majority_label = bytes "majority_label"

abbrev pub mean_value : Bytes
mean_value = bytes "mean_value"

abbrev pub preserve_all : Bytes
preserve_all = bytes "preserve_all"

-- A judge is its `Evaluate`, `none` if it is nil. `W` is the outside world, `E` a judge's errors.
pub record PanelMember (W E : Type 0) : Type 0 where
  pub id : Bytes
  pub judge : Option (Instance → Effect W E Report)

pub record Panel (W E : Type 0) : Type 0 where
  pub members : List (PanelMember W E)
  pub policy : Bytes

pub record PanelResult : Type 0 where
  pub instance_id : Bytes
  pub reports : Map Report
  pub agreement_matrix : Map (Map Float64)

pub data PanelError (E : Type 0) : Type 0 where
  bad_instance : EvalError → PanelError E
  no_member : PanelError E
  bad_member_id : IdentifierError → PanelError E
  duplicate_member nil_judge : Bytes → PanelError E
  member_failed : Bytes → E → PanelError E

-- The claims that both reports hold with the same label.
unfoldable pub count_matches : (a b : Map ClaimAssessment) → List Bytes → ℕ
unfolding find label_differs
count_matches a b [] = 0
count_matches a b (id ∷ ids) =
    let n = count_matches a b ids in
    if differs_by label_differs (find id a) (find id b) then n else n + 1

-- `float64(matches) / float64(total)`, 0 without a claim.
unfoldable pub agreement : (a b : Report) → Float64
unfolding index_claims union_keys count_matches quotient of_small
agreement a b =
    let ids = union_keys (index_claims a) (index_claims b) in
    if ltb 0 (Base.length ids)
    then quotient (count_matches (index_claims a) (index_claims b) ids) (Base.length ids)
    else of_small 0

-- `matrix[row][column] = value`, for a row that is there.
unfoldable pub set_cell : (row column : Bytes) → Float64 → Map (Map Float64) → Map (Map Float64)
unfolding find put
set_cell row column value matrix = elim (find row matrix) [
  | none ↦ matrix
  | some cells ↦ put row (put column value cells) matrix
]

-- The first loop: a row for each member, with a 1 for the member itself.
unfoldable pub diagonal : Map (Map Float64) → List Bytes → Map (Map Float64)
unfolding put of_small
diagonal matrix [] = matrix
diagonal matrix (id ∷ ids) = diagonal (put id (put id (of_small 1) []) matrix) ids

-- `reports[id]`; every member has a report.
unfoldable pub report_in : Map Report → (id : Bytes) → Option Report
unfolding find
report_in reports id = find id reports

abbrev pub agreement_of : Option Report → Option Report → Float64
agreement_of (some a) (some b) = agreement a b
agreement_of _ _ = of_small 0

-- The inner loop, for the later members.
unfoldable pub fill_row :
    Map Report → (id : Bytes) → Map (Map Float64) → List Bytes → Map (Map Float64)
unfolding report_in agreement set_cell
fill_row reports id matrix [] = matrix
fill_row reports id matrix (other ∷ others) =
    let value = agreement_of (report_in reports id) (report_in reports other) in
    fill_row reports id (set_cell other id value (set_cell id other value matrix)) others

unfoldable pub fill_rows : Map Report → Map (Map Float64) → List Bytes → Map (Map Float64)
unfolding fill_row
fill_rows reports matrix [] = matrix
fill_rows reports matrix (id ∷ ids) = fill_rows reports (fill_row reports id matrix ids) ids

unfoldable pub pairwise_agreement : List Bytes → Map Report → Map (Map Float64)
unfolding diagonal fill_rows
pairwise_agreement ids reports = fill_rows reports (diagonal [] ids) ids

module _ {W E : Type 0} where
  abbrev pub member_ids : List (PanelMember W E) → List Bytes
  member_ids members = map (λ (m : PanelMember W E). m.id) members

  abbrev check_judge : PanelMember W E → Result (PanelError E) (Unit {0})
  check_judge m = elim m.judge [ none ↦ err (nil_judge m.id) | some judge ↦ ok tt ]

  unfoldable pub check_members : List (PanelMember W E) → Result (PanelError E) (Unit {0})
  check_members =
      scan (λ (m : PanelMember W E). m.id) (λ m. Base.wrap bad_member_id (Identifier.validate m.id))
        (λ m. duplicate_member m.id) check_judge

  unfoldable pub run_member : Instance → PanelMember W E → Effect W (PanelError E) Report
  run_member inst m = elim m.judge [
    | none ↦ lift (err (nil_judge m.id))
    | some judge ↦ wrap_error (member_failed m.id) (judge inst)
  ]

  -- Every member runs, and the reports are stored under the ids.
  unfoldable pub run_members :
      Instance → Map Report → List (PanelMember W E) → Effect W (PanelError E) (Map Report)
  unfolding run_member put
  run_members inst reports [] = lift (ok reports)
  run_members inst reports (m ∷ ms) = do
    report ← run_member inst m
    run_members inst (put m.id report reports) ms

  unfoldable pub evaluate : Platform → Panel W E → Instance → Effect W (PanelError E) PanelResult
  unfolding check_members run_members pairwise_agreement
  evaluate platform p inst = do
    lift (Base.wrap bad_instance (validate_instance platform inst))
    lift (Base.refuse (is_empty p.members) no_member)
    lift (check_members p.members)
    reports ← run_members inst [] p.members
    lift (
        ok record {
          instance_id = inst.id;
          reports = reports;
          agreement_matrix = pairwise_agreement (member_ids p.members) reports;
        })
