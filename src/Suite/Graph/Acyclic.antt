-- ===== src/Suite/Graph/Acyclic.antt =====
-- The search accepts exactly the acyclic graphs.
use mathlib.Core.Logic.Or
use mathlib.Core.List.{Mem, Subset, mem-cons, mem-cons_of_mem, not-mem-nil}
use judgekit.Base.{
  ℕ, suc, ◌≤◌, ◌<◌, ◌≡◌, refl, ◌↔◌, ◌⊎◌, inl, inr, false, Option, some, [], ◌∷◌, length, Result, ok,
  err, arith, Bool-cases, if◌then◌else◌,
}
use judgekit.Base.Text.{Bytes, ◌==◌, Bytes-set, ==-refl}
use judgekit.Base.Keys.{Keys, has, has_iff, not-has_iff}
use judgekit.Suite.Graph.{GraphError, cycle, nil_evaluator, out_of_fuel, Colors, search_cycle}
use judgekit.Suite.Graph.Order.{IsSettled, IsRanked, Grown, Outcome}
use judgekit.Suite.Graph.Search.{Declared, search_cycle-Outcome}

-- How many names were done when `name` was first done.
rank_in : Keys → Bytes → ℕ
rank_in [] name = 0
rank_in (x ∷ xs) name =
    let before = rank_in xs name in
    if has name xs then before else if x == name then suc (length xs) else 0

rank_in-le : (xs : Keys) (name : Bytes) → rank_in xs name ≤ length xs
unfolding rank_in
rank_in-le [] name = omega arith
rank_in-le (x ∷ xs) name = ground (arith, rank_in-le xs name)

rank_in-below :
    (x : Bytes) (xs : Keys) (name : Bytes) → Mem name xs → rank_in (x ∷ xs) name ≡ rank_in xs name
unfolding rank_in
rank_in-below x xs name m = rw ((has_iff name xs).1 m)

rank_in-top :
    (xs : Keys) (name : Bytes) → has name xs ≡ false → rank_in (name ∷ xs) name ≡ suc (length xs)
unfolding rank_in
rank_in-top xs name h = ground (arith, h, ==-refl name)

module _ (deps_of : Bytes → Option Keys) where
  rank_in-lt :
      (done : Keys) (name : Bytes) (deps : Keys) (dep : Bytes)
      → IsSettled deps_of done
      → Mem name done
      → deps_of name ≡ some deps
      → Mem dep deps
      → Mem dep done × (rank_in done dep < rank_in done name)
  rank_in-lt [] name deps dep s m e d = absurd (not-mem-nil m)
  rank_in-lt (x ∷ xs) name deps dep s m e d = elim (Bool-cases (has name xs)) [
    | inl old ↦
        let below = (has_iff name xs).0 old in
        let (there, lt) = rank_in-lt xs name deps dep s.1 below e d in
        (
          mem-cons_of_mem x there,
          omega (arith, rank_in-below x xs name below, rank_in-below x xs dep there),
        )
    | inr new ↦
        let here : name ≡ x =
          Or.elim (Bytes-set name x) (mem-cons.0 m) (λ eq. eq)
            (λ old. absurd ((not-has_iff name xs).0 new old)) in
        let there = s.0 deps (rw here at e) dep d in
        let top : rank_in (x ∷ xs) name ≡ suc (length xs) = rw (← here) (rank_in-top xs name new) in
        (
          mem-cons_of_mem x there,
          omega (arith, top, rank_in-below x xs dep there, rank_in-le xs dep),
        )
  ]

  accepted :
      (names : Keys) (r : Result GraphError Colors)
      → Outcome deps_of [] [] names r
      → ((colors : Colors) × (r ≡ ok colors)) ⊎ ((rank : Bytes → ℕ) → ¬ IsRanked deps_of rank)
  accepted names (ok colors) g = inl (colors, refl)
  accepted names (err (cycle p n)) g = inr g
  accepted names (err (nil_evaluator n)) g = absurd g
  accepted names (err out_of_fuel) g = absurd g

  -- With declared dependencies the search ends with an answer, and it accepts exactly if some rank
  -- puts every dependency below its dependent.
  pub search_cycle_iff :
      {names : Keys}
      → Declared deps_of names
      → ((colors : Colors) × (search_cycle deps_of names ≡ ok colors))
        ↔ ((rank : Bytes → ℕ) × IsRanked deps_of rank)
  search_cycle_iff {names} declared =
      let outcome = search_cycle-Outcome deps_of declared in
      (
        λ (colors, e).
            let g : Grown deps_of [] [] names colors = rw e at outcome in
            (
              rank_in g.after,
              λ name deps e' dep d.
                  (rank_in-lt g.after name deps dep g.inv.settled
                    (g.reached name (declared.listed name deps e')) e' d).1,
            ),
        λ (rank, ranked). elim (accepted names (search_cycle deps_of names) outcome) [
          | inl found ↦ found
          | inr none_there ↦ absurd (none_there rank ranked)
        ],
      )

  -- An accepted graph has an order in which every name stands before its dependencies, read from
  -- the back: the names in the order in which the search finished them.
  pub search_cycle-IsSettled :
      {names : Keys} {colors : Colors}
      → Declared deps_of names
      → search_cycle deps_of names ≡ ok colors
      → (order : Keys) × IsSettled deps_of order × Subset names order
  search_cycle-IsSettled {names} {colors} declared e =
      let g : Grown deps_of [] [] names colors = rw e at (search_cycle-Outcome deps_of declared) in
      (g.after, g.inv.settled, g.reached)
