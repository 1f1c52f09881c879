-- ===== src/Suite/Graph/Search.antt =====
-- What the search as a whole gives: all names in order, or the proof that there is a cycle.
use mathlib.Core.Logic.Or
use native.Mathlib.Bridge.{le_prop}
use native.Mathlib.Nat.{lt_trans, lt_irrefl}
use mathlib.Core.Option.{some-injective}
use judgekit.Base.Pigeonhole.{length-le_of_subset}
use mathlib.Core.List.{
  Mem, Subset, Nodup, mem-append, mem-singleton, mem-cons_self, mem-cons_of_mem, not-mem-nil,
  nil-subset, Subset-refl, Nodup-append, Nodup-cons, Nodup-nil, Mem-prop,
}
use judgekit.Base.{
  ℕ, zero, suc, ◌+◌, ◌<◌, ◌≡◌, sym, ◌∙◌, inl, inr, Option, some, [], ◌∷◌, ◌++◌, length,
  length-append, ok, err, ◌>>=◌, arith,
}
use judgekit.Base.Text.{Bytes, Bytes-set, Bytes-discrete}
use judgekit.Base.Keys.{Keys}
use judgekit.Base.Maps.{put}
use judgekit.Suite.Graph.{
  white, gray, black, cycle, Colors, color_of, visit_each, visit, search_cycle,
}
use judgekit.Suite.Graph.Order.{
  Inv-start, Inv-enter, Inv-leave, bind-Outcome, visit_each-Outcome, Color-cases, Grown, Inv,
  IsRanked, Outcome,
}

module _ (deps_of : Bytes → Option Keys) where
  -- Every name has an evaluator, and dependencies are names.
  pub record Declared (names : Keys) : Type 0 where
    pub found : (n : Bytes) → Mem n names → (deps : Keys) × (deps_of n ≡ some deps)
    pub listed : (n : Bytes) (deps : Keys) → deps_of n ≡ some deps → Mem n names
    pub closed : (n : Bytes) (deps : Keys) → deps_of n ≡ some deps → Subset deps names

  -- `name` lies below every name of the path.
  abbrev Above : Bytes → Keys → Type 0
  Above name path =
      (rank : Bytes → ℕ) → IsRanked deps_of rank → (m : Bytes) → Mem m path → rank name < rank m

  Above-dep :
      {path deps : Keys} {name dep : Bytes}
      → deps_of name ≡ some deps
      → Mem dep deps
      → Above name path
      → Above dep (path ++ name ∷ [])
  Above-dep {path} {deps} {name} {dep} e m a rank ranked n h =
      let below : rank dep < rank name = ranked name deps e dep m in
      Or.elim le_prop (mem-append.0 h) (λ old. lt_trans below (a rank ranked n old))
        (λ last. rw ((mem-singleton Bytes-set).0 last) below)

  Nodup-snoc :
      {path : Keys} {name : Bytes} → Nodup path → ¬ Mem name path → Nodup (path ++ name ∷ [])
  Nodup-snoc {path} {name} d n = Nodup-append.1 (
    d,
    Nodup-cons.1 (not-mem-nil, Nodup-nil),
    λ x now last. n (rw ((mem-singleton Bytes-set).0 last) at now),
  )

  module _ {names : Keys} (declared : Declared names) where
    leave :
        (name : Bytes) (path done deps : Keys)
        → ¬ Mem name path
        → deps_of name ≡ some deps
        → (colors : Colors) → Grown deps_of (path ++ name ∷ []) done deps colors
        → Grown deps_of path done (name ∷ []) (put name black colors)
    leave name path done deps fresh e colors g = record {
      after = name ∷ g.after;
      inv =
          Inv-leave deps_of name fresh (λ deps' e'. rw (some-injective _ _ (sym e' ∙ e)) g.reached)
            g.inv;
      kept = λ n m. mem-cons_of_mem name (g.kept n m);
      reached = λ n m. rw ((mem-singleton Bytes-set).0 m) mem-cons_self;
    }

    visit-gray :
        (f : ℕ) (name : Bytes) (path : Keys) (colors : Colors)
        → color_of name colors ≡ gray
        → visit deps_of (suc f) name path colors ≡ err (cycle path name)
    unfolding visit
    visit-gray f name path colors e = rw (e, visit)

    visit-black :
        (f : ℕ) (name : Bytes) (path : Keys) (colors : Colors)
        → color_of name colors ≡ black
        → visit deps_of (suc f) name path colors ≡ ok colors
    unfolding visit
    visit-black f name path colors e = rw (e, visit)

    visit-white :
        (f : ℕ) (name : Bytes) (path deps : Keys) (colors : Colors)
        → color_of name colors ≡ white
        → deps_of name ≡ some deps
        → visit deps_of (suc f) name path colors ≡ (
            visit_each
              (λ dep c. visit deps_of f dep (path ++ name ∷ []) c)
              deps
              (put name gray colors)
            >>= λ colors'. ok (put name black colors'))
    unfolding visit
    visit-white f name path deps colors e e' = rw (e, visit, e')

    visit-Outcome :
        (f : ℕ) (name : Bytes) (path done : Keys) (colors : Colors)
        → Mem name names
        → Nodup path
        → Subset path names
        → length names < f + length path
        → Above name path
        → Inv deps_of path done colors
        → Outcome deps_of path done (name ∷ []) (visit deps_of f name path colors)
    unfolding visit
    visit-Outcome zero name path done colors m d s h a i =
        absurd (omega (arith, length-le_of_subset Bytes-discrete d s))
    visit-Outcome (suc f) name path done colors m d s h a i =
        elim (Color-cases (color_of name colors)) [
          | inl w ↦
              let (deps, e) = declared.found name m in
              let fresh : ¬ Mem name path = λ p. cc (i.path_gray name p) in
              let inside = Inv-enter deps_of name w i in
              rw (visit-white f name path deps colors w e) (
                bind-Outcome deps_of (path ++ name ∷ []) path done deps (name ∷ [])
                  (visit_each (λ dep c. visit deps_of f dep (path ++ name ∷ []) c) deps
                    (put name gray colors))
                  (λ c. ok (put name black c))
                  (visit_each-Outcome deps_of _ deps done (put name gray colors)
                    (λ dep dm seen c inv.
                      visit-Outcome f dep (path ++ name ∷ []) seen c
                        (declared.closed name deps e dep dm) (Nodup-snoc d fresh)
                        (λ x xm.
                          Or.elim Mem-prop (mem-append.0 xm) (s x)
                            (λ last. rw ((mem-singleton Bytes-set).0 last) m))
                        (omega (arith, length-append path (name ∷ []))) (Above-dep e dm a) inv)
                    inside)
                  (leave name path done deps fresh e))
          | inr (inl g) ↦
              rw (visit-gray f name path colors g)
                (λ rank ranked. lt_irrefl _ (a rank ranked name (i.gray_path name g)))
          | inr (inr b) ↦ rw (visit-black f name path colors b) (record {
            after = done;
            inv = i;
            kept = Subset-refl done;
            reached = λ n nm. rw ((mem-singleton Bytes-set).0 nm) (i.black_done name b);
          })
        ]

    pub search_cycle-Outcome : Outcome deps_of [] [] names (search_cycle deps_of names)
    unfolding search_cycle
    search_cycle-Outcome =
        visit_each-Outcome deps_of _ names [] []
          (λ n m seen c inv.
            visit-Outcome (suc (length names)) n [] seen c m Nodup-nil (nil-subset names)
              (omega arith) (λ rank ranked x none_there. absurd (not-mem-nil none_there)) inv)
          (Inv-start deps_of)
