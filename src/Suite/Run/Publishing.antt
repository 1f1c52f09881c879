-- ===== src/Suite/Run/Publishing.antt =====
-- What holds of the three maps of suite.Run between two waves, and that a published wave keeps it.
use judgekit.Base.{
  ◌≤◌, ◌<◌, ◌≡◌, inl, inr, refl, ◌∙◌, true, false, none, some, List, [], ◌∷◌, length, All, ok,
  arith, Bool-cases, if◌then◌else◌,
}
use judgekit.Base.Text.{Bytes, ◌==◌, ==_iff}
use judgekit.Base.Keys.{Keys, has, Distinct}
use judgekit.Base.Maps.{Map, find, put, delete, keys, find-put, find-delete}
use judgekit.Eval.Types.{Instance}
use judgekit.Assessment.Types.{Report}
use judgekit.Suite.Types.{Evaluator, Reports}
use judgekit.Suite.Validate.{names, index, dependencies}
use judgekit.Suite.Run.{Progress, without, satisfy, publish, start}
use judgekit.Suite.Run.Tables.{
  has-find, has-put, has-without, find-satisfy, length-delete-le, length-delete-lt, IsFiled,
  delete-IsFiled, index-IsFiled, find-remaining_from,
}
use judgekit.Suite.Run.Waves.{Ran}

-- `later` has every report of `earlier`.
abbrev pub Extends : (earlier later : Reports) → Type 0
Extends earlier later = (k : Bytes) (r : Report) → find k earlier ≡ some r → find k later ≡ some r

-- `snapshot` has a report for each dependency.
abbrev pub Covers : Reports → Keys → Type 0
Covers snapshot deps = (d : Bytes) → has d deps ≡ true → has d (keys snapshot) ≡ true

-- `r` is what `e` computed from some of `results`, the reports of its dependencies among them.
abbrev pub Produced : Instance → Reports → Evaluator → Report → Type 0
Produced inst results e r =
    (snapshot : Reports) × Extends snapshot results
    × Covers snapshot e.depends_on
    × (e.evaluate inst snapshot ≡ ok r)

pub record Inv (inst : Instance) (es : List Evaluator) (p : Progress) : Type 0 where
  pub filed : IsFiled p.pending
  pub waiting :
      (n : Bytes) → find n p.pending ≡ (if has n (keys p.results) then none else find n (index es))
  pub left :
      (n : Bytes) (deps : Keys)
      → dependencies es n ≡ some deps
      → (ks : Keys) × (find n p.remaining ≡ some ks)
        × ((d : Bytes) → has d ks ≡ (if has d (keys p.results) then false else has d deps))
  pub produced :
      (n : Bytes) (r : Report)
      → find n p.results ≡ some r
      → (e : Evaluator) × (find n (index es) ≡ some e) × Produced inst p.results e r

module _ (inst : Instance) (es : List Evaluator) where
  pub start-Inv : Inv inst es (start es)
  unfolding start find has
  start-Inv = record {
    filed = index-IsFiled es;
    waiting = λ n. refl;
    left = λ n deps e. (deps, find-remaining_from n es ∙ e, λ d. refl);
    produced = λ n r e. cc;
  }

  -- One name is published: its report is stored, and it is neither pending nor waited for.
  abbrev pub published : Bytes → Report → Progress → Progress
  published name r p = record {
    results = put name r p.results;
    pending = delete name p.pending;
    remaining = satisfy name p.remaining;
  }

  pending-unpublished :
      (name : Bytes) {e : Evaluator} {p : Progress}
      → Inv inst es p
      → find name p.pending ≡ some e
      → has name (keys p.results) ≡ false
  pending-unpublished name {e} {p} i h = ground (arith, i.waiting name, h)

  Extends-put :
      (name : Bytes) (r : Report) (results : Reports)
      → has name (keys results) ≡ false
      → Extends results (put name r results)
  Extends-put name r results new k v e =
      ground (arith, find-put name k r results, ==_iff name k, has-find k results e, e, new)

  published-left :
      (name : Bytes) (r : Report) {p : Progress}
      → Inv inst es p
      → (n : Bytes) (deps : Keys) → dependencies es n ≡ some deps
      → (ks : Keys) × (find n (satisfy name p.remaining) ≡ some ks)
        × ((d : Bytes)
            → has d ks ≡ (if has d (keys (put name r p.results)) then false else has d deps))
  published-left name r {p} i n deps e =
      let (ks, found, same) = i.left n deps e in
      (
        without name ks,
        find-satisfy name n p.remaining found,
        λ d. ground (arith, has-without name d ks, has-put name d r p.results, same d),
      )

  published-Produced :
      {snapshot : Reports} (r : Report) {e : Evaluator} {p : Progress}
      → Inv inst es p
      → Extends snapshot p.results
      → find e.name p.pending ≡ some e
      → Covers snapshot e.depends_on
      → e.evaluate inst snapshot ≡ ok r
      → (n : Bytes) (r' : Report) → find n (put e.name r p.results) ≡ some r'
      → (e' : Evaluator) × (find n (index es) ≡ some e')
        × Produced inst (put e.name r p.results) e' r'
  published-Produced {snapshot} r {e} {p} i ext h covers ran n r' found =
      let new = pending-unpublished e.name i h in
      let more = Extends-put e.name r p.results new in
      elim (Bool-cases (e.name == n)) [
        | inl same ↦
            let here : some r ≡ some r' = ground (arith, find-put e.name n r p.results) in
            (
              e,
              rw (← (==_iff e.name n).0 same) (ground (arith, i.waiting e.name)),
              (snapshot, (λ k v at. more k v (ext k v at)), covers, cc (ran, here)),
            )
        | inr other ↦
            let (e', at, (before, ext', covers', ran')) =
              i.produced n r' (ground (arith, find-put e.name n r p.results)) in
            (e', at, (before, (λ k v h'. more k v (ext' k v h')), covers', ran'))
      ]

  published-Inv :
      {snapshot : Reports} (r : Report) {e : Evaluator} {p : Progress}
      → Inv inst es p
      → Extends snapshot p.results
      → find e.name p.pending ≡ some e
      → Covers snapshot e.depends_on
      → e.evaluate inst snapshot ≡ ok r
      → Inv inst es (published e.name r p)
  published-Inv r {e} {p} i ext h covers ran = record {
    filed = delete-IsFiled e.name p.pending i.filed;
    waiting = λ n.
        ground (arith, find-delete e.name n p.pending, has-put e.name n r p.results, i.waiting n);
    left = published-left e.name r i;
    produced = published-Produced r i ext h covers ran;
  }

  -- The rest of a wave is still pending when one of it is published.
  published-rest :
      (name : Bytes) (P : Evaluator → Type 0) (p : Map Evaluator) (wave : List Evaluator)
      → has name (names wave) ≡ false
      → All (λ (e : Evaluator). (find e.name p ≡ some e) × P e) wave
      → All (λ (e : Evaluator). (find e.name (delete name p) ≡ some e) × P e) wave
  unfolding has
  published-rest name P p [] h a = tt
  published-rest name P p (e ∷ es') h a = (
    (
      ground (arith, find-delete name e.name p, ==_iff e.name name, ==_iff name e.name, a.0.0, h),
      a.0.1,
    ),
    published-rest name P p es' (ground (arith, h)) a.1,
  )

  -- A completed wave is published: what holds between waves holds again.
  pub publish-Inv :
      (snapshot : Reports) (wave : List Evaluator) (rs : List (Bytes × Report)) (p : Progress)
      → Inv inst es p
      → Extends snapshot p.results
      → Distinct (names wave)
      → All
          (λ (e : Evaluator). (find e.name p.pending ≡ some e) × Covers snapshot e.depends_on)
          wave
      → Ran inst snapshot wave rs
      → Inv inst es (publish rs p)
  unfolding publish
  publish-Inv snapshot [] [] p i ext d a ran = i
  publish-Inv snapshot [] (r ∷ rs) p i ext d a ran = absurd ran
  publish-Inv snapshot (e ∷ es') [] p i ext d a ran = absurd ran
  publish-Inv snapshot (e ∷ es') ((name, r) ∷ rs) p i ext d a (same, ran, rest) = rw same (
      publish-Inv snapshot es' rs (published e.name r p) (published-Inv r i ext a.0.0 a.0.1 ran)
        (λ k v at.
          Extends-put e.name r p.results (pending-unpublished e.name i a.0.0) k v (ext k v at))
        d.1 (published-rest e.name (λ e'. Covers snapshot e'.depends_on) p.pending es' d.0 a.1)
        rest)

  length-publish-le :
      (rs : List (Bytes × Report)) (p : Progress) → length (publish rs p).pending ≤ length p.pending
  unfolding publish
  length-publish-le [] p = omega arith
  length-publish-le ((name, r) ∷ rs) p =
      omega (arith, length-publish-le rs (published name r p), length-delete-le name p.pending)

  -- Each wave leaves fewer evaluators pending.
  pub length-publish-lt :
      (snapshot : Reports) (wave : List Evaluator) (rs : List (Bytes × Report)) (p : Progress)
      → 0 < length wave
      → All
          (λ (e : Evaluator). (find e.name p.pending ≡ some e) × Covers snapshot e.depends_on)
          wave
      → Ran inst snapshot wave rs
      → length (publish rs p).pending < length p.pending
  unfolding publish
  length-publish-lt snapshot [] rs p pos a ran = absurd (omega (arith, pos))
  length-publish-lt snapshot (e ∷ es') [] p pos a ran = absurd ran
  length-publish-lt snapshot (e ∷ es') ((name, r) ∷ rs) p pos a (same, ran, rest) = omega (
    arith,
    length-publish-le rs (published name r p),
    length-delete-lt name p.pending (rw same (has-find e.name p.pending a.0.0)),
  )
