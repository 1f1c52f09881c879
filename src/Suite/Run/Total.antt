-- ===== src/Suite/Run/Total.antt =====
-- suite.Run on a valid suite and a valid instance.
use judgekit.Base.{
  ◌≤◌, ◌≡◌, sym, ◌∙◌, some, List, All, All-map, Result, ok, err, Passes, wrap_iff, length,
}
use judgekit.Base.Text.{Bytes}
use judgekit.Base.Keys.{has, has_iff, Nodup→Distinct}
use judgekit.Base.Maps.{find, keys}
use judgekit.CanonicalJson.{Platform}
use judgekit.Eval.Types.{Instance}
use judgekit.Eval.Validate.{validate_instance}
use judgekit.Assessment.Types.{Report}
use judgekit.Suite.Types.{Evaluator, Suite, Reports, report}
use judgekit.Suite.Graph.Acyclic.{search_cycle_iff, search_cycle-IsSettled}
use judgekit.Suite.Validate.{
  SuiteError, evaluator_failed, bad_instance, names, index, dependencies, present, validate,
}
use judgekit.Suite.WellFormed.{IsSuite, validate-IsSuite, index-All, dependencies-Declared}
use judgekit.Suite.Run.{run_waves, start, run}
use judgekit.Suite.Run.Tables.{has-index, length-index-le}
use judgekit.Suite.Run.Publishing.{Covers, Produced, start-Inv}
use judgekit.Suite.Run.Complete.{Ends, run_waves-Ends}

-- The report of `e` is one that `e` computed from reports of the same run, those of all its
-- dependencies among them.
abbrev pub HasReport : Instance → Reports → Evaluator → Type 0
HasReport inst results e =
    (r : Report) × (report results e.name ≡ some r) × Produced inst results e r

-- What a run of the evaluators `es` gives.
abbrev pub RunOutcome : Instance → List Evaluator → Result SuiteError Reports → Type 0
RunOutcome inst es (ok results) =
    All (HasReport inst results) es × ((n : Bytes) → has n (keys results) ≡ has n (names es))
RunOutcome inst es (err er) =
    (snapshot : Reports) × (e : Evaluator) × (reason : Bytes) × (find e.name (index es) ≡ some e)
    × Covers snapshot e.depends_on
    × (e.evaluate inst snapshot ≡ err reason)
    × (er ≡ evaluator_failed e.name reason)

Ends-RunOutcome :
    (inst : Instance) (es : List Evaluator)
    → All (λ (e : Evaluator). find e.name (index es) ≡ some e) es
    → (r : Result SuiteError Reports) → Ends inst es r
    → RunOutcome inst es r
unfolding report
Ends-RunOutcome inst es filed (ok results) (reports, same) =
    (All-map (λ (e : Evaluator) at. reports e.name e at) es filed, λ n. same n ∙ has-index n es)
Ends-RunOutcome inst es filed (err er) e = e

start-length : (es : List Evaluator) → length (start es).pending ≤ length es
unfolding start
start-length es = length-index-le es

waves-Ends :
    (inst : Instance) (s : Suite)
    → IsSuite s
    → Ends inst
        (present s.evaluators)
        (run_waves (length (present s.evaluators)) inst (start (present s.evaluators)))
waves-Ends inst s i =
    let es = present s.evaluators in
    let declared = dependencies-Declared es i.declared in
    let (colors, accepted) = (search_cycle_iff (dependencies es) declared).1 i.acyclic in
    let (order, settled, reached) = search_cycle-IsSettled (dependencies es) declared accepted in
    run_waves-Ends inst es order settled
      (λ n deps e d m.
        has-index d es
        ∙ (has_iff d (names es)).1 (declared.closed n deps e d ((has_iff d deps).0 m)))
      (λ n m. (has_iff n order).1 (reached n ((has_iff n (names es)).0 (sym (has-index n es) ∙ m))))
      (length es) (start es) (start-Inv inst es) (start-length es)

-- A run of a valid suite on a valid instance ends without a deadlock. It gives a report for every
-- evaluator and for no other name, each computed by its evaluator from reports of the same run that
-- include those of all its dependencies; or it gives the error of one evaluator, which had them.
pub run-RunOutcome :
    (platform : Platform) (s : Suite) (inst : Instance)
    → Passes (validate s)
    → Passes (validate_instance platform inst)
    → RunOutcome inst (present s.evaluators) (run platform s inst)
unfolding run
run-RunOutcome platform s inst valid instance_valid =
    let i = ((validate-IsSuite s).0 valid).0 in
    let es = present s.evaluators in
    rw (valid, (wrap_iff bad_instance (validate_instance platform inst)).1 instance_valid)
      (Ends-RunOutcome inst es (index-All es (Nodup→Distinct (names es) i.once))
        (run_waves (length es) inst (start es)) (waves-Ends inst s i))
