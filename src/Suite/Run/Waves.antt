-- ===== src/Suite/Run/Waves.antt =====
-- What one wave of suite.Run runs, and what a completed wave leaves.
use judgekit.Base.{
  ◌<◌, ◌≡◌, ◌⊎◌, inl, inr, refl, true, false, some, List, [], ◌∷◌, length, All, Result, ok, err,
  arith, Bool-cases,
}
use judgekit.Base.Text.{Bytes, ==_iff, ==-refl}
use judgekit.Base.Keys.{Keys, has, Distinct}
use judgekit.Base.Maps.{Map, find, keys}
use judgekit.Base.Sort.{lt_text, insert_on, sort_on, Distinct-sort_on, length-sort_on}
use judgekit.Eval.Types.{Instance}
use judgekit.Assessment.Types.{Report}
use judgekit.Suite.Types.{Evaluator, Reports}
use judgekit.Suite.Validate.{SuiteError, evaluator_failed, names}
use judgekit.Suite.Run.{is_ready, ready_from, wave, run_wave}
use judgekit.Suite.Run.Tables.{has-find, IsFiled}

module _ {ℓ κ} {A : Type ℓ} (P : A → Type κ) (key : A → Bytes) where
  insert_on-All : (x : A) (ys : List A) → P x → All P ys → All P (insert_on key x ys)
  unfolding insert_on
  insert_on-All x [] p q = (p, tt)
  insert_on-All x (y ∷ ys) p q = elim (Bool-cases (lt_text (key y) (key x))) [
    | inl e ↦ rw e (q.0, insert_on-All x ys p q.1)
    | inr e ↦ rw e (p, q)
  ]

  sort_on-All : (xs : List A) → All P xs → All P (sort_on key xs)
  unfolding sort_on
  sort_on-All [] p = tt
  sort_on-All (x ∷ xs) p = insert_on-All x (sort_on key xs) p.0 (sort_on-All xs p.1)

ready_from-All :
    (P : Evaluator → Type 0) (remaining : Map Keys) (m : Map Evaluator)
    → ((k : Bytes) (e : Evaluator) → find k m ≡ some e → is_ready remaining k ≡ true → P e)
    → IsFiled m
    → All P (ready_from remaining m)
unfolding ready_from find has
ready_from-All P remaining [] h f = tt
ready_from-All P remaining ((k, e) ∷ m) h f =
    let rest : All P (ready_from remaining m) =
      ready_from-All P remaining m
        (λ j e' found. h j e' (ground (arith, ==_iff k j, has-find j m found, f.1, found))) f.2 in
    elim (Bool-cases (is_ready remaining k)) [
      | inl now ↦ rw now (h k e (ground (arith, ==-refl k)) now, rest)
      | inr later ↦ rw later rest
    ]

has-ready_from :
    (j : Bytes) (remaining : Map Keys) (m : Map Evaluator)
    → IsFiled m
    → has j (keys m) ≡ false
    → has j (names (ready_from remaining m)) ≡ false
unfolding ready_from has
has-ready_from j remaining [] f h = refl
has-ready_from j remaining ((k, e) ∷ m) f h =
    ground (arith, f.0, has-ready_from j remaining m f.2, h)

ready_from-Distinct :
    (remaining : Map Keys) (m : Map Evaluator)
    → IsFiled m
    → Distinct (names (ready_from remaining m))
unfolding ready_from
ready_from-Distinct remaining [] f = tt
ready_from-Distinct remaining ((k, e) ∷ m) f =
    let rest = ready_from-Distinct remaining m f.2 in
    elim (Bool-cases (is_ready remaining k)) [
      | inl now ↦ rw now (has-ready_from e.name remaining m f.2 (rw f.0 at f.1), rest)
      | inr later ↦ rw later rest
    ]

ready_from-length :
    (j : Bytes) (remaining : Map Keys) (m : Map Evaluator) {e : Evaluator}
    → find j m ≡ some e
    → is_ready remaining j ≡ true
    → 0 < length (ready_from remaining m)
unfolding ready_from find
ready_from-length j remaining [] h r = cc
ready_from-length j remaining ((k, e') ∷ m) {e} h r =
    ground (arith, ==_iff k j, ready_from-length j remaining m {e = e}, h, r)

-- A wave holds pending evaluators whose remaining dependencies are none, each once.
pub wave-All :
    (P : Evaluator → Type 0) (remaining : Map Keys) (m : Map Evaluator)
    → ((k : Bytes) (e : Evaluator) → find k m ≡ some e → is_ready remaining k ≡ true → P e)
    → IsFiled m
    → All P (wave remaining m)
unfolding wave
wave-All P remaining m h f =
    sort_on-All P (λ (e : Evaluator). e.name) (ready_from remaining m)
      (ready_from-All P remaining m h f)

pub wave-Distinct :
    (remaining : Map Keys) (m : Map Evaluator) → IsFiled m → Distinct (names (wave remaining m))
unfolding wave
wave-Distinct remaining m f =
    Distinct-sort_on (λ (e : Evaluator). e.name) (ready_from remaining m)
      (ready_from-Distinct remaining m f)

pub wave-not_empty :
    (j : Bytes) (remaining : Map Keys) (m : Map Evaluator) {e : Evaluator}
    → find j m ≡ some e
    → is_ready remaining j ≡ true
    → 0 < length (wave remaining m)
unfolding wave
wave-not_empty j remaining m h r = omega (
  arith,
  length-sort_on (λ (e : Evaluator). e.name) (ready_from remaining m),
  ready_from-length j remaining m h r,
)

-- `rs` holds what each evaluator of the wave computed from the snapshot.
abbrev pub Ran : Instance → Reports → List Evaluator → List (Bytes × Report) → Type 0
Ran inst snapshot [] [] = Unit
Ran inst snapshot [] (r ∷ rs) = ⊥
Ran inst snapshot (e ∷ es) [] = ⊥
Ran inst snapshot (e ∷ es) ((name, r) ∷ rs) =
    (name ≡ e.name) × (e.evaluate inst snapshot ≡ ok r) × Ran inst snapshot es rs

-- An evaluator of the wave failed, and the wave reports it under its name.
abbrev pub Failed : Instance → Reports → (Evaluator → Type 0) → SuiteError → Type 0
Failed inst snapshot P er =
    (e : Evaluator) × (reason : Bytes) × P e
    × (e.evaluate inst snapshot ≡ err reason)
    × (er ≡ evaluator_failed e.name reason)

Text-result : (r : Result Bytes Report) → ((v : Report) × (r ≡ ok v)) ⊎ ((t : Bytes) × (r ≡ err t))
Text-result (ok v) = inl (v, refl)
Text-result (err t) = inr (t, refl)

pub run_wave-cases :
    (P : Evaluator → Type 0) (inst : Instance) (snapshot : Reports) (es : List Evaluator)
    → All P es
    → ((rs : List (Bytes × Report)) × (run_wave inst snapshot es ≡ ok rs) × Ran inst snapshot es rs)
      ⊎ ((er : SuiteError) × (run_wave inst snapshot es ≡ err er) × Failed inst snapshot P er)
unfolding run_wave
run_wave-cases P inst snapshot [] ps = inl ([], refl, tt)
run_wave-cases P inst snapshot (e ∷ es) ps = elim (Text-result (e.evaluate inst snapshot)) [
  | inr (t, bad) ↦ inr (evaluator_failed e.name t, rw bad refl, (e, t, ps.0, bad, refl))
  | inl (v, good) ↦ elim (run_wave-cases P inst snapshot es ps.1) [
    | inl (rs, eq, ran) ↦ inl ((e.name, v) ∷ rs, rw (good, eq) refl, (refl, good, ran))
    | inr (er, eq, failed) ↦ inr (er, rw (good, eq) refl, failed)
  ]
]
