-- ===== src/Suite/WellFormed.antt =====
-- suite.Validate against the conditions that a suite has to meet.
use mathlib.Core.List.{Nodup, Subset, nil-subset, cons-subset}
use judgekit.Base.{
  ℕ, ◌≡◌, ◌↔◌, inl, inr, refl, sym, ap, subst, ◌∙◌, true, false, Option, none, some, List, [], ◌∷◌,
  map, is_empty, All, All-map, Result, ok, err, ◌>>=◌, wrap, Passes, >>_iff, ensure_iff, refuse_iff,
  wrap_iff, ◌⇔◌, both, arith, Bool-cases, Option-cases,
}
use judgekit.Base.Text.{Bytes, ◌==◌, ==_iff, ==-refl, is_sha256}
use judgekit.Base.Keys.{Keys, has, has_iff, Distinct, scan, scan_iff}
use judgekit.Base.Maps.{Map, find, put, find-put}
use judgekit.Identifier.Shape.{IsIdentifier, validate_iff}
use judgekit.Suite.Types.{Evaluator, Suite, suite_api_version}
use judgekit.Suite.Graph.{Colors, GraphError}
use judgekit.Suite.Graph.Order.{IsRanked}
use judgekit.Suite.Graph.Search.{Declared}
use judgekit.Suite.Graph.Acyclic.{search_cycle_iff}
use judgekit.Suite.Validate.{
  SuiteError, bad_graph, bad_evaluator_name, bad_suite_name, present, names, name_of,
  check_evaluator, check_dependencies, check_all_dependencies, index_from, index, dependencies,
  check_acyclic, validate_body, validate,
}
use judgekit.Suite.Run.Tables.{has-find, has-find-none, has-index}

find-index_from_absent :
    (k : Bytes) (m : Map Evaluator) (es : List Evaluator)
    → has k (names es) ≡ false
    → find k (index_from m es) ≡ find k m
unfolding index_from has
find-index_from_absent k m [] h = refl
find-index_from_absent k m (e ∷ es) h =
    ground (arith, find-index_from_absent k (put e.name e m) es, find-put e.name k e m, h)

index_from-All :
    (m : Map Evaluator) (es : List Evaluator)
    → Distinct (names es)
    → All (λ (e : Evaluator). find e.name (index_from m es) ≡ some e) es
unfolding index_from
index_from-All m [] d = tt
index_from-All m (e ∷ es) d = (
  ground (
    arith,
    find-index_from_absent e.name (put e.name e m) es d.0,
    find-put e.name e.name e m,
    ==-refl e.name,
  ),
  index_from-All (put e.name e m) es d.1,
)

-- With distinct names each evaluator is the one that its name finds.
pub index-All :
    (es : List Evaluator)
    → Distinct (names es)
    → All (λ (e : Evaluator). find e.name (index es) ≡ some e) es
unfolding index
index-All es d = index_from-All [] es d

find-index_from :
    (P : Evaluator → Type 0) (k : Bytes) (m : Map Evaluator) (es : List Evaluator) {e : Evaluator}
    → ((e' : Evaluator) → find k m ≡ some e' → P e')
    → All P es
    → find k (index_from m es) ≡ some e
    → P e
unfolding index_from
find-index_from P k m [] {e} before a h = before e h
find-index_from P k m (e₀ ∷ es) {e} before a h =
    find-index_from P k (put e₀.name e₀ m) es {e = e}
      (λ e' h'. elim (Bool-cases (e₀.name == k)) [
        | inl same ↦
            let here : some e₀ ≡ some e' = ground (arith, find-put e₀.name k e₀ m, h') in
            subst P (cc here) a.0
        | inr other ↦ before e' (ground (arith, find-put e₀.name k e₀ m, h'))
      ])
      a.1 h

-- What holds of every evaluator holds of the one that a name finds.
find-index :
    (P : Evaluator → Type 0) (k : Bytes) (es : List Evaluator) {e : Evaluator}
    → All P es
    → find k (index es) ≡ some e
    → P e
unfolding index find
find-index P k es {e} a h = find-index_from P k [] es {e = e} (λ e' h'. cc) a h

abbrev DependsOnly : Keys → Evaluator → Type 0
DependsOnly known e = Subset e.depends_on known

check_dependencies_iff :
    (known : Keys) (name : Bytes) (deps : Keys)
    → Passes (check_dependencies known name deps) ↔ Subset deps known
unfolding check_dependencies
check_dependencies_iff known name [] = (λ _. nil-subset known, λ _. refl)
check_dependencies_iff known name (dep ∷ deps) =
    >>_iff _ _
    ⇔ both (ensure_iff _ _ ⇔ has_iff dep known) (check_dependencies_iff known name deps)
    ⇔ (cons-subset.1, cons-subset.0)

check_all_dependencies_iff :
    (known : Keys) (es : List Evaluator)
    → Passes (check_all_dependencies known es) ↔ All (DependsOnly known) es
unfolding check_all_dependencies
check_all_dependencies_iff known [] = (λ _. tt, λ _. refl)
check_all_dependencies_iff known (e ∷ es) =
    >>_iff _ _
    ⇔ both (check_dependencies_iff known e.name e.depends_on) (check_all_dependencies_iff known es)

dependencies-find :
    (es : List Evaluator) (n : Bytes) {deps : Keys}
    → dependencies es n ≡ some deps
    → (e : Evaluator) × (find n (index es) ≡ some e) × (e.depends_on ≡ deps)
unfolding dependencies
dependencies-find es n h = elim (Option-cases (find n (index es))) [
  | inl missing ↦ absurd (cc (rw (missing, dependencies) at h))
  | inr (e, at) ↦ (e, at, cc (rw (at, dependencies) at h))
]

find-dependencies :
    (es : List Evaluator) (n : Bytes) {e : Evaluator}
    → find n (index es) ≡ some e
    → dependencies es n ≡ some e.depends_on
unfolding dependencies
find-dependencies es n at = rw (at, dependencies) refl

-- Checked dependencies make the graph of a suite one that the search can walk.
pub dependencies-Declared :
    (es : List Evaluator) → All (DependsOnly (names es)) es → Declared (dependencies es) (names es)
dependencies-Declared es closed = record {
  found = λ n m. elim (Option-cases (find n (index es))) [
    | inl missing ↦
        absurd (cc (has-find-none n (index es) missing, has-index n es, (has_iff n (names es)).1 m))
    | inr (e, at) ↦ (e.depends_on, find-dependencies es n at)
  ];
  listed = λ n deps h.
      let (e, at, same) = dependencies-find es n h in
      (has_iff n (names es)).0 (sym (has-index n es) ∙ has-find n (index es) at);
  closed = λ n deps h.
      let (e, at, same) = dependencies-find es n h in
      subst (λ ds. Subset ds (names es)) same (find-index (DependsOnly (names es)) n es closed at);
}

abbrev IsNamed : Option Evaluator → Type 0
IsNamed none = ⊥
IsNamed (some e) = IsIdentifier e.name

IsNamed-iff : (o : Option Evaluator) → Passes (check_evaluator o) ↔ IsNamed o
unfolding check_evaluator
IsNamed-iff none = (λ h. cc, λ h. absurd h)
IsNamed-iff (some e) = wrap_iff bad_evaluator_name _ ⇔ validate_iff e.name

names-present :
    (os : List (Option Evaluator)) → All IsNamed os → map name_of os ≡ names (present os)
unfolding present
names-present [] a = refl
names-present (none ∷ os) a = absurd a.0
names-present (some e ∷ os) a = ap (λ ks. e.name ∷ ks) (names-present os a.1)

-- What a suite has to meet: the names are identifiers, each evaluator is there once, it depends on
-- evaluators of the suite only, and some rank puts each dependency below its dependent.
pub record IsSuite (s : Suite) : Type 0 where
  pub version : s.api_version ≡ suite_api_version
  pub name : IsIdentifier s.name
  pub some_evaluators : is_empty s.evaluators ≡ false
  pub named : All IsNamed s.evaluators
  pub once : Nodup (names (present s.evaluators))
  pub declared : All (DependsOnly (names (present s.evaluators))) (present s.evaluators)
  pub acyclic : (rank : Bytes → ℕ) × IsRanked (dependencies (present s.evaluators)) rank

scan-evaluators :
    (os : List (Option Evaluator))
    → Passes (
        scan name_of check_evaluator
          (λ o. SuiteError.duplicate_evaluator (name_of o))
          (λ _. ok tt)
          os)
      ↔ (All IsNamed os × Nodup (names (present os)))
scan-evaluators os =
    let (split, join) =
      scan_iff name_of check_evaluator (λ o. SuiteError.duplicate_evaluator (name_of o))
        (λ _. ok tt) os in
    (
      λ h.
          let (checks, once) = split h in
          let named = All-map (λ o c. (IsNamed-iff o).0 c.0) os checks in
          (named, subst Nodup (names-present os named) once),
      λ (named, once). join (
        All-map (λ o n. ((IsNamed-iff o).1 n, refl)) os named,
        subst Nodup (sym (names-present os named)) once,
      ),
    )

search-Passes :
    (r : Result GraphError Colors)
    → Passes (wrap bad_graph r >>= λ _. ok tt) ↔ ((colors : Colors) × (r ≡ ok colors))
search-Passes (ok colors) = (λ _. (colors, refl), λ _. refl)
search-Passes (err e) = (λ h. cc, λ h. cc)

-- validateBody accepts exactly the suites that meet the conditions.
pub validate_body_iff : (s : Suite) → Passes (validate_body s) ↔ IsSuite s
unfolding validate_body check_acyclic
validate_body_iff s =
    let es = present s.evaluators in
    let version =
      ensure_iff (s.api_version == suite_api_version) SuiteError.unsupported_version ⇔ ==_iff _ _ in
    let name = wrap_iff bad_suite_name _ ⇔ validate_iff s.name in
    let some_there = refuse_iff (is_empty s.evaluators) SuiteError.no_evaluators in
    let all =
      >>_iff _ _
      ⇔ both version (
          >>_iff _ _
          ⇔ both name (
              >>_iff _ _
              ⇔ both some_there (
                  >>_iff _ _
                  ⇔ both (scan-evaluators s.evaluators) (
                      >>_iff _ _
                      ⇔ both (check_all_dependencies_iff (names es) es)
                          (search-Passes (check_acyclic es)))))) in
    (
      λ h.
          let (v, (n, (e, ((named, once), (closed, found))))) = all.0 h in
          record {
            version = v;
            name = n;
            some_evaluators = e;
            named = named;
            once = once;
            declared = closed;
            acyclic =
                (search_cycle_iff (dependencies es) (dependencies-Declared es closed)).0 found;
          },
      λ i. all.1 (
        i.version,
        (
          i.name,
          (
            i.some_evaluators,
            (
              (i.named, i.once),
              (
                i.declared,
                (search_cycle_iff (dependencies es) (dependencies-Declared es i.declared)).1
                    i.acyclic,
              ),
            ),
          ),
        ),
      ),
    )

-- `Suite.Validate` accepts a suite exactly if it meets the conditions, acyclicity included, and has a
-- digest.
pub validate-IsSuite : (s : Suite) → Passes (validate s) ↔ (IsSuite s × (is_sha256 s.digest ≡ true))
unfolding validate
validate-IsSuite s = >>_iff _ _ ⇔ both (validate_body_iff s) (ensure_iff _ _)
