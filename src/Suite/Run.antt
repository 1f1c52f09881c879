-- ===== src/Suite/Run.antt =====
-- suite/suite.go: Run, the waves of evaluators whose dependencies are met.
pub mod Tables
pub mod Waves
pub mod Publishing
pub mod Complete
pub mod Total
use judgekit.Base.{
  ℕ, zero, suc, ◌≡◌, Bool, true, false, Option, none, some, List, [], ◌∷◌, map, length, is_empty,
  if◌then◌else◌, Result, ok, err, ◌>>=◌, ◌>>◌, ensure, refuse, wrap,
}
use judgekit.Base.Text.{Bytes, ◌==◌}
use judgekit.Base.Keys.{Keys, has}
use judgekit.Base.Maps.{Map, find, put, delete, keys}
use judgekit.Base.Sort.{sort_on}
use judgekit.CanonicalJson.{Platform}
use judgekit.Eval.Types.{Instance}
use judgekit.Eval.Validate.{validate_instance}
use judgekit.Assessment.Types.{Report}
use judgekit.Suite.Types.{Evaluator, Suite, Reports}
use judgekit.Suite.Validate.{
  SuiteError, bad_instance, evaluator_failed, deadlock, out_of_fuel, present, index, validate,
}

-- `delete(set, name)` on a set of names
unfoldable pub without : Bytes → Keys → Keys
unfolding ◌==◌
without name [] = []
without name (k ∷ ks) = let rest = without name ks in if k == name then rest else k ∷ rest

-- `remaining`, filled from the evaluators
unfoldable pub remaining_from : Map Keys → List Evaluator → Map Keys
remaining_from m [] = m
remaining_from m (e ∷ es) = remaining_from (put e.name e.depends_on m) es

-- `len(remaining[name]) == 0`: a missing entry is empty.
unfoldable pub is_ready : Map Keys → Bytes → Bool
is_ready remaining name = elim (find name remaining) [ none ↦ true | some deps ↦ is_empty deps ]

unfoldable pub ready_from : Map Keys → Map Evaluator → List Evaluator
unfolding is_ready
ready_from remaining [] = []
ready_from remaining ((name, e) ∷ pending) =
    let rest = ready_from remaining pending in if is_ready remaining name then e ∷ rest else rest

-- One dependency wave, sorted by name.
unfoldable pub wave : Map Keys → Map Evaluator → List Evaluator
unfolding ready_from sort_on
wave remaining pending = sort_on (λ (e : Evaluator). e.name) (ready_from remaining pending)

-- The evaluators of a wave all read the same snapshot, and each writes its own slot, so the order in
-- which they run shows in the choice of the error alone: here the first by name.
unfoldable pub run_wave :
    Instance → Reports → List Evaluator → Result SuiteError (List (Bytes × Report))
run_wave inst snapshot [] = ok []
run_wave inst snapshot (e ∷ es) = do
  r ← wrap (evaluator_failed e.name) (e.evaluate inst snapshot)
  rs ← run_wave inst snapshot es
  ok ((e.name, r) ∷ rs)

-- `for dependent := range remaining { delete(remaining[dependent], name) }`
unfoldable pub satisfy : Bytes → Map Keys → Map Keys
unfolding without
satisfy name [] = []
satisfy name ((dependent, deps) ∷ m) = (dependent, without name deps) ∷ satisfy name m

pub record Progress : Type 0 where
  pub results : Reports
  pub pending : Map Evaluator
  pub remaining : Map Keys

-- The loop that publishes a completed wave.
unfoldable pub publish : List (Bytes × Report) → Progress → Progress
unfolding satisfy
publish [] p = p
publish ((name, r) ∷ rs) p = publish rs (record {
  results = put name r p.results;
  pending = delete name p.pending;
  remaining = satisfy name p.remaining;
})

-- The loop over the waves. Each wave takes one evaluator at least, so as many rounds as there are
-- evaluators are enough; `out_of_fuel` belongs to the model only.
unfoldable pub run_waves : ℕ → Instance → Progress → Result SuiteError Reports
unfolding wave run_wave publish
run_waves zero inst p = if is_empty p.pending then ok p.results else err out_of_fuel
run_waves (suc f) inst p =
    let ready = wave p.remaining p.pending in
    if is_empty p.pending
    then ok p.results
    else if is_empty ready
    then err (deadlock (length p.pending))
    else (run_wave inst p.results ready >>= λ rs. run_waves f inst (publish rs p))

-- The maps before the first wave.
unfoldable pub start : List Evaluator → Progress
unfolding index remaining_from
start es = record { results = []; pending = index es; remaining = remaining_from [] es }

module _ (platform : Platform) where
  unfoldable pub run : Suite → Instance → Result SuiteError Reports
  unfolding validate present start run_waves
  run s inst = do
    validate s
    wrap bad_instance (validate_instance platform inst)
    let es = present s.evaluators
    run_waves (length es) inst (start es)
