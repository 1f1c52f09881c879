-- ===== src/Suite/Graph.antt =====
-- suite/suite.go, checkAcyclic: the depth-first search over the declared dependencies. `deps_of` is
-- `names[name].DependsOn()`, and `none` is the nil dereference of a name that is not declared.
pub mod Order
pub mod Search
pub mod Acyclic
use judgekit.Base.{
  ℕ, zero, suc, ◌+◌, ◌≡◌, Bool, true, false, Option, none, some, List, [], ◌∷◌, ◌++◌, length,
  Result, ok, err, ◌>>=◌, ◌>>◌,
}
use judgekit.Base.Text.{Bytes}
use judgekit.Base.Keys.{Keys}
use judgekit.Base.Maps.{Map, find, put}

pub data Color : Type 0 where
  white gray black : Color

-- `out_of_fuel` belongs to the model only.
pub data GraphError : Type 0 where
  cycle : (path : Keys) (name : Bytes) → GraphError
  nil_evaluator : Bytes → GraphError
  out_of_fuel : GraphError

abbrev pub Colors : Type 0
Colors = Map Color

-- `color[name]`: a name that is not in the map is white.
unfoldable pub color_of : Bytes → Colors → Color
color_of name colors = elim (find name colors) [ none ↦ white | some c ↦ c ]

-- `for _, x := range xs { if err := visit(x); err != nil { return err } }`
unfoldable pub visit_each :
    (Bytes → Colors → Result GraphError Colors) → Keys → Colors → Result GraphError Colors
visit_each visit [] colors = ok colors
visit_each visit (name ∷ names) colors = do
  colors' ← visit name colors
  visit_each visit names colors'

module _ (deps_of : Bytes → Option Keys) where
  -- The closure `visit`. The fuel bounds the length of the current path.
  unfoldable pub visit : ℕ → Bytes → (path : Keys) → Colors → Result GraphError Colors
  unfolding visit_each
  visit zero name path colors = err out_of_fuel
  visit (suc f) name path colors = elim (color_of name colors) [
    | gray ↦ err (cycle path name)
    | black ↦ ok colors
    | white ↦ elim (deps_of name) [
      | none ↦ err (nil_evaluator name)
      | some deps ↦ do
        colors' ←
            visit_each (λ dep c. visit f dep (path ++ name ∷ []) c) deps (put name gray colors)
        ok (put name black colors')
    ]
  ]

  -- The loop over the evaluators. No path is longer than the list of names.
  unfoldable pub search_cycle : Keys → Result GraphError Colors
  unfolding visit color_of
  search_cycle names = visit_each (λ name c. visit (suc (length names)) name [] c) names []
