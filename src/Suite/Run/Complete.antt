-- ===== src/Suite/Run/Complete.antt =====
-- suite.Run as a whole: the waves end, and each evaluator sees the reports it depends on.
use judgekit.Base.{
  ℕ, zero, suc, ◌≤◌, ◌<◌, ◌≡◌, ◌⊎◌, inl, inr, refl, sym, subst, ◌∙◌, Bool, true, false, Option,
  none, some, List, [], ◌∷◌, length, is_empty, All, Result, ok, err, arith, Bool-cases,
  Option-cases, if◌then◌else◌,
}
use judgekit.Base.Text.{Bytes, ==_iff, ==-refl}
use judgekit.Base.Keys.{Keys, has, has_iff}
use judgekit.Base.Maps.{Map, find, keys}
use judgekit.Eval.Types.{Instance}
use judgekit.Assessment.Types.{Report}
use judgekit.Suite.Types.{Evaluator, Reports}
use judgekit.Suite.Graph.Order.{IsSettled}
use judgekit.Suite.Validate.{SuiteError, evaluator_failed, index, dependencies}
use judgekit.Suite.Run.{Progress, is_ready, wave, publish, run_waves}
use judgekit.Suite.Run.Tables.{has-find, has-find-none, IsFiled-find}
use judgekit.Suite.Run.Waves.{wave-All, wave-Distinct, wave-not_empty, run_wave-cases}
use judgekit.Suite.Run.Publishing.{Inv, Covers, Produced, publish-Inv, length-publish-lt}

has-nil_or :
    (ks : Keys) (d : Bytes) {b c : Bool}
    → is_empty ks ≡ true
    → has d ks ≡ (if b then false else c)
    → c ≡ true
    → b ≡ true
unfolding has
has-nil_or [] d e h m = ground (arith, h, m)
has-nil_or (k ∷ ks) d e h m = cc

is_empty-all_absent : (ks : Keys) → ((d : Bytes) → has d ks ≡ false) → is_empty ks ≡ true
unfolding has
is_empty-all_absent [] h = refl
is_empty-all_absent (k ∷ ks) h = ground (arith, h k, ==-refl k)

find-is_empty : (n : Bytes) (m : Map Evaluator) → is_empty m ≡ true → find n m ≡ none
unfolding find
find-is_empty n [] e = refl
find-is_empty n (x ∷ m) e = cc

a_key :
    (m : Map Evaluator) → is_empty m ≡ false → (n : Bytes) × (e : Evaluator) × (find n m ≡ some e)
unfolding find
a_key [] h = cc
a_key ((k, e) ∷ m) h = (k, e, ground (arith, ==-refl k))

is_empty-length : {A : Type 0} (xs : List A) → 0 < length xs → is_empty xs ≡ false
is_empty-length [] h = absurd (omega (arith, h))
is_empty-length (x ∷ xs) h = refl

is_empty-length_zero : {A : Type 0} (xs : List A) → length xs ≤ 0 → is_empty xs ≡ true
is_empty-length_zero [] h = refl
is_empty-length_zero (x ∷ xs) h = absurd (omega (arith, h))

same_some : {a b : Evaluator} {o : Option Evaluator} → o ≡ some a → o ≡ some b → a ≡ b
same_some p q = cc

module _ (inst : Instance) (es : List Evaluator) where
  dependencies-index :
      (n : Bytes) {e : Evaluator}
      → find n (index es) ≡ some e
      → dependencies es n ≡ some e.depends_on
  unfolding dependencies
  dependencies-index n {e} at = rw (at, dependencies) refl

  is_ready-Covers :
      {p : Progress} (n : Bytes) {e : Evaluator}
      → Inv inst es p
      → find n p.pending ≡ some e
      → is_ready p.remaining n ≡ true
      → (find e.name p.pending ≡ some e) × Covers p.results e.depends_on
  unfolding is_ready
  is_ready-Covers {p} n {e} i h r =
      let name : n ≡ e.name = IsFiled-find n p.pending i.filed h in
      let at : find n (index es) ≡ some e = ground (arith, i.waiting n) in
      let (ks, found, same) = i.left n e.depends_on (dependencies-index n at) in
      (rw name at h, λ d m. has-nil_or ks d (rw (found, is_ready) at r) (same d) m)

  -- Every dependency of a declared name is declared.
  abbrev pub IsClosed : Type 0
  IsClosed =
      (n : Bytes) (deps : Keys)
      → dependencies es n ≡ some deps
      → (d : Bytes) → has d deps ≡ true
      → has d (keys (index es)) ≡ true

  published-of_absent :
      {p : Progress} (d : Bytes)
      → Inv inst es p
      → has d (keys p.pending) ≡ false
      → has d (keys (index es)) ≡ true
      → has d (keys p.results) ≡ true
  published-of_absent {p} d i absent declared = elim (Bool-cases (has d (keys p.results))) [
    | inl done ↦ done
    | inr not_done ↦ elim (Option-cases (find d (index es))) [
      | inl missing ↦ absurd (cc (has-find-none d (index es) missing, declared))
      | inr (e, found) ↦
          let still : find d p.pending ≡ some e = ground (arith, i.waiting d) in
          absurd (cc (has-find d p.pending still, absent))
    ]
  ]

  -- In a settled order the first pending name from the back is ready.
  ready_in :
      {p : Progress} (order : Keys)
      → Inv inst es p
      → IsSettled (dependencies es) order
      → IsClosed
      → ((n : Bytes) → has n order ≡ true → has n (keys p.pending) ≡ false)
        ⊎ ((n : Bytes) × (e : Evaluator) × (find n p.pending ≡ some e)
            × (is_ready p.remaining n ≡ true))
  unfolding has is_ready
  ready_in {p} [] i s closed = inl (λ n m. cc)
  ready_in {p} (x ∷ order) i s closed = elim (ready_in order i s.1 closed) [
    | inr found ↦ inr found
    | inl rest ↦ elim (Option-cases (find x p.pending)) [
      | inl missing ↦
          inl λ n m. ground (arith, ==_iff x n, rest n, has-find-none x p.pending missing, m)
      | inr (e, h) ↦
          let at : find x (index es) ≡ some e = ground (arith, i.waiting x) in
          let deps : dependencies es x ≡ some e.depends_on = dependencies-index x at in
          let (ks, found, same) = i.left x e.depends_on deps in
          let none_left : is_empty ks ≡ true = is_empty-all_absent ks λ d.
            elim (Bool-cases (has d e.depends_on)) [
              | inr other ↦ ground (arith, same d, other)
              | inl dep ↦
                  let below =
                    (has_iff d order).1
                      (s.0 e.depends_on deps d ((has_iff d e.depends_on).0 dep)) in
                  ground (
                    arith,
                    same d,
                    published-of_absent d i (rest d below) (closed x e.depends_on deps d dep),
                  )
            ] in
          inr (x, e, h, rw (found, is_ready) none_left)
    ]
  ]

  -- Every declared evaluator has a report that it computed from those of its dependencies.
  abbrev pub IsComplete : Reports → Type 0
  IsComplete results =
      ((n : Bytes) (e : Evaluator)
        → find n (index es) ≡ some e
        → (r : Report) × (find n results ≡ some r) × Produced inst results e r)
      × ((n : Bytes) → has n (keys results) ≡ has n (keys (index es)))

  -- What a run says: all reports, or the error of one evaluator that saw its dependencies' reports.
  abbrev pub Ends : Result SuiteError Reports → Type 0
  Ends (ok results) = IsComplete results
  Ends (err er) =
      (snapshot : Reports) × (e : Evaluator) × (reason : Bytes) × (find e.name (index es) ≡ some e)
      × Covers snapshot e.depends_on
      × (e.evaluate inst snapshot ≡ err reason)
      × (er ≡ evaluator_failed e.name reason)

  Inv-IsComplete : {p : Progress} → Inv inst es p → is_empty p.pending ≡ true → IsComplete p.results
  Inv-IsComplete {p} i none_pending = (
    λ n e at.
        let gone = find-is_empty n p.pending none_pending in
        let done : has n (keys p.results) ≡ true =
          published-of_absent n i (has-find-none n p.pending gone) (has-find n (index es) at) in
        elim (Option-cases (find n p.results)) [
          | inl missing ↦ absurd (cc (has-find-none n p.results missing, done))
          | inr (r, found) ↦
              let (e', at', made) = i.produced n r found in
              (r, found, subst (λ x. Produced inst p.results x r) (same_some at' at) made)
        ],
    λ n. elim (Option-cases (find n p.results)) [
      | inl missing ↦ elim (Bool-cases (has n (keys (index es)))) [
        | inr other ↦ has-find-none n p.results missing ∙ sym other
        | inl declared ↦
            published-of_absent n i
              (has-find-none n p.pending (find-is_empty n p.pending none_pending)) declared
            ∙ sym declared
      ]
      | inr (r, found) ↦
          let (e', at', made) = i.produced n r found in
          has-find n p.results found ∙ sym (has-find n (index es) at')
    ],
  )

  -- What each evaluator of the next wave satisfies.
  abbrev IsReady : Progress → Evaluator → Type 0
  IsReady p e = (find e.name p.pending ≡ some e) × Covers p.results e.depends_on

  wave-IsReady : {p : Progress} → Inv inst es p → All (IsReady p) (wave p.remaining p.pending)
  wave-IsReady {p} i =
      wave-All (IsReady p) p.remaining p.pending (λ k e found r. is_ready-Covers k i found r)
        i.filed

  wave-is_not_empty :
      {p : Progress} (order : Keys)
      → Inv inst es p
      → IsSettled (dependencies es) order
      → IsClosed
      → ((n : Bytes) → has n (keys (index es)) ≡ true → has n order ≡ true)
      → is_empty p.pending ≡ false
      → 0 < length (wave p.remaining p.pending)
  wave-is_not_empty {p} order i s closed all some_pending = elim (ready_in order i s closed) [
    | inr (n, e, found, r) ↦ wave-not_empty n p.remaining p.pending found r
    | inl gone ↦
        let (n, e, found) = a_key p.pending some_pending in
        let at : find n (index es) ≡ some e = ground (arith, i.waiting n) in
        absurd (cc (has-find n p.pending found, gone n (all n (has-find n (index es) at))))
  ]

  pub run_waves-Ends :
      (order : Keys)
      → IsSettled (dependencies es) order
      → IsClosed
      → ((n : Bytes) → has n (keys (index es)) ≡ true → has n order ≡ true)
      → (f : ℕ) (p : Progress) → Inv inst es p
      → length p.pending ≤ f
      → Ends (run_waves f inst p)
  unfolding run_waves
  run_waves-Ends order s closed all zero p i le =
      rw (is_empty-length_zero p.pending le) (Inv-IsComplete i (is_empty-length_zero p.pending le))
  run_waves-Ends order s closed all (suc f) p i le = elim (Bool-cases (is_empty p.pending)) [
    | inl none_pending ↦ rw none_pending (Inv-IsComplete i none_pending)
    | inr some_pending ↦
        let filled = wave-is_not_empty order i s closed all some_pending in
        let ready = wave-IsReady i in
        elim (run_wave-cases (IsReady p) inst p.results (wave p.remaining p.pending) ready) [
          | inr (er, eq, (e, reason, (still, covers), bad, same)) ↦
              rw (some_pending, is_empty-length (wave p.remaining p.pending) filled, eq)
                (p.results, e, reason, ground (arith, i.waiting e.name), covers, bad, same)
          | inl (rs, eq, ran) ↦
              rw (some_pending, is_empty-length (wave p.remaining p.pending) filled, eq)
                (run_waves-Ends order s closed all f (publish rs p)
                  (publish-Inv inst es p.results (wave p.remaining p.pending) rs p i (λ k r at. at)
                    (wave-Distinct p.remaining p.pending i.filed) ready ran)
                  (omega (
                    arith,
                    le,
                    length-publish-lt inst es p.results (wave p.remaining p.pending) rs p filled
                        ready ran,
                  )))
        ]
  ]
