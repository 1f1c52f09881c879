-- ===== src/Suite/Validate.antt =====
-- suite/suite.go: Validate, validateBody and NewSuite.
use judgekit.Base.{
  ℕ, Option, none, some, List, [], ◌∷◌, map, is_empty, Result, ok, err, ◌>>=◌, ◌>>◌, ensure, refuse,
  wrap,
}
use judgekit.Base.Text.{Bytes, bytes, ◌==◌, is_sha256}
use judgekit.Base.Keys.{Keys, has, scan}
use judgekit.Base.Maps.{Map, find, put}
use judgekit.Base.Sort.{sort_texts}
use judgekit.CanonicalJson.{Platform, JsonError, Json, str, obj, end, field, sum}
use judgekit.CanonicalJson.Build.{entries, strings}
use judgekit.Identifier
use judgekit.Identifier.{IdentifierError}
use judgekit.Eval.Validate.{EvalError}
use judgekit.Suite.Types.{Evaluator, Suite, suite_api_version}
use judgekit.Suite.Graph.{GraphError, Colors, search_cycle}

-- `out_of_fuel` belongs to the model only.
pub data SuiteError : Type 0 where
  unsupported_version no_evaluators nil_evaluator bad_digest : SuiteError
  bad_suite_name bad_evaluator_name : IdentifierError → SuiteError
  duplicate_evaluator : Bytes → SuiteError
  unknown_dependency : (evaluator dependency : Bytes) → SuiteError
  bad_graph : GraphError → SuiteError
  digest_failed : JsonError → SuiteError
  bad_instance : EvalError → SuiteError
  evaluator_failed : (evaluator reason : Bytes) → SuiteError
  deadlock : (pending : ℕ) → SuiteError
  out_of_fuel : SuiteError

-- The evaluators that are not nil: all of them, once the first loop of `validate_body` has passed.
unfoldable pub present : List (Option Evaluator) → List Evaluator
present [] = []
present (none ∷ es) = present es
present (some e ∷ es) = e ∷ present es

abbrev pub names : List Evaluator → Keys
names es = map (λ (e : Evaluator). e.name) es

-- The key of a nil evaluator is never recorded: the check before refuses it.
abbrev pub name_of : Option Evaluator → Bytes
name_of none = []
name_of (some e) = e.name

unfoldable pub check_evaluator : Option Evaluator → Result SuiteError (Unit {0})
check_evaluator none = err nil_evaluator
check_evaluator (some e) = wrap bad_evaluator_name (Identifier.validate e.name)

unfoldable pub check_dependencies : Keys → Bytes → Keys → Result SuiteError (Unit {0})
check_dependencies known name [] = ok tt
check_dependencies known name (dep ∷ deps) = do
  ensure (has dep known) (unknown_dependency name dep)
  check_dependencies known name deps

unfoldable pub check_all_dependencies : Keys → List Evaluator → Result SuiteError (Unit {0})
unfolding check_dependencies
check_all_dependencies known [] = ok tt
check_all_dependencies known (e ∷ es) = do
  check_dependencies known e.name e.depends_on
  check_all_dependencies known es

-- `names[e.Name()] = e` in a loop
unfoldable pub index_from : Map Evaluator → List Evaluator → Map Evaluator
index_from m [] = m
index_from m (e ∷ es) = index_from (put e.name e m) es

unfoldable pub index : List Evaluator → Map Evaluator
unfolding index_from
index = index_from []

unfoldable pub dependencies : List Evaluator → Bytes → Option Keys
dependencies es name = elim (find name (index es)) [ none ↦ none | some e ↦ some e.depends_on ]

unfoldable pub check_acyclic : List Evaluator → Result GraphError Colors
unfolding search_cycle dependencies
check_acyclic es = search_cycle (dependencies es) (names es)

unfoldable pub validate_body : Suite → Result SuiteError (Unit {0})
unfolding present check_evaluator check_all_dependencies check_acyclic
validate_body s = do
  ensure (s.api_version == suite_api_version) unsupported_version
  wrap bad_suite_name (Identifier.validate s.name)
  refuse (is_empty s.evaluators) no_evaluators
  scan name_of check_evaluator (λ o. duplicate_evaluator (name_of o)) (λ _. ok tt) s.evaluators
  let es = present s.evaluators
  check_all_dependencies (names es) es
  _ ← wrap bad_graph (check_acyclic es)
  ok tt

unfoldable pub validate : Suite → Result SuiteError (Unit {0})
unfolding validate_body
validate s = do validate_body s; ensure (is_sha256 s.digest) bad_digest

-- `evaluatorDeps`: the sorted dependencies by name.
unfoldable pub evaluator_deps : Map Keys → List Evaluator → Map Keys
unfolding sort_texts
evaluator_deps m [] = m
evaluator_deps m (e ∷ es) = evaluator_deps (put e.name (sort_texts e.depends_on) m) es

unfoldable pub suite_json : Suite → Json
unfolding evaluator_deps present entries strings
suite_json s = obj (
    field (bytes "api_version") (str s.api_version) (
      field (bytes "name") (str s.name) (
        field (bytes "dependencies")
          (obj (entries strings (evaluator_deps [] (present s.evaluators)))) end)))

module _ (platform : Platform) where
  unfoldable pub new_suite : Bytes → List (Option Evaluator) → Result SuiteError Suite
  unfolding validate_body suite_json
  new_suite name evaluators = do
    let draft : Suite = record {
      api_version = suite_api_version;
      name = name;
      evaluators = evaluators;
      digest = [];
    }
    validate_body draft
    digest ← wrap digest_failed (sum platform (suite_json draft))
    ok (record draft { digest = digest })
