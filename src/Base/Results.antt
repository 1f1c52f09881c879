-- ===== src/Base/Results.antt =====
-- Go's `(value, error)` results: `ok v` is `(v, nil)`, `err e` is a returned error. A function that
-- returns only an error has the value type `Unit`. `wrap` is `fmt.Errorf("...: %w", err)`.
use mathlib.Core.Path.{◌≡◌, refl}
use mathlib.Core.Logic.{◌⊎◌, inl, inr, ◌↔◌}
use mathlib.Core.Bool.{Bool, true, false}

pub data Result {ℓ κ} (E : Type ℓ) (A : Type κ) : Type (ℓ ⊔ κ) where
  ok : A → Result E A
  err : E → Result E A

infixl 5 ◌>>=◌ ◌>>◌
abbrev pub ◌>>=◌ {ℓ κ μ} :
    {E : Type ℓ} {A : Type κ} {B : Type μ} → Result E A → (A → Result E B) → Result E B
err e >>= next = err e
ok v >>= next = next v

abbrev pub ◌>>◌ {ℓ μ} : {E : Type ℓ} {B : Type μ} → Result E (Unit {0}) → Result E B → Result E B
check >> rest = check >>= λ done. rest

-- An early return of the error `e`, if the test holds.
abbrev pub refuse {ℓ} : {E : Type ℓ} → Bool → E → Result E (Unit {0})
refuse true e = err e
refuse false e = ok tt

-- An early return of the error `e`, unless the test holds.
abbrev pub ensure {ℓ} : {E : Type ℓ} → Bool → E → Result E (Unit {0})
ensure false e = err e
ensure true e = ok tt

abbrev pub wrap {ℓ κ μ} : {E : Type ℓ} {F : Type κ} {A : Type μ} → (E → F) → Result E A → Result F A
wrap f (ok a) = ok a
wrap f (err e) = err (f e)

-- A validator accepts.
abbrev pub Passes {ℓ} : {E : Type ℓ} → Result E (Unit {0}) → Type ℓ
Passes r = r ≡ ok tt

module _ {ℓ} {E : Type ℓ} where
  pub >>=-eq-ok {κ μ} :
      {A : Type κ} {B : Type μ} (first : Result E A) (next : A → Result E B) {out : B}
      → (first >>= next) ≡ ok out
      → (v : A) × (first ≡ ok v) × (next v ≡ ok out)
  >>=-eq-ok (err e) next passed = cc
  >>=-eq-ok (ok v) next passed = (v, refl, passed)

  pub >>_iff : (m k : Result E (Unit {0})) → Passes (m >> k) ↔ (Passes m × Passes k)
  >>_iff (ok tt) k = (λ h. (refl, h), λ h. h.1)
  >>_iff (err e) k = (λ h. cc, λ h. cc)

  pub ensure_iff : (b : Bool) (e : E) → Passes (ensure b e) ↔ (b ≡ true)
  ensure_iff true e = (λ _. refl, λ _. refl)
  ensure_iff false e = (λ h. cc, λ h. cc)

  pub refuse_iff : (b : Bool) (e : E) → Passes (refuse b e) ↔ (b ≡ false)
  refuse_iff false e = (λ _. refl, λ _. refl)
  refuse_iff true e = (λ h. cc, λ h. cc)

  pub wrap_iff {κ} :
      {F : Type κ} (f : E → F) (m : Result E (Unit {0})) → Passes (wrap f m) ↔ Passes m
  wrap_iff f (ok tt) = (λ _. refl, λ _. refl)
  wrap_iff f (err e) = (λ h. cc, λ h. cc)

  pub wrap-eq-ok {κ μ} :
      {F : Type κ} {A : Type μ} (f : E → F) (m : Result E A) {a : A} → wrap f m ≡ ok a → m ≡ ok a
  wrap-eq-ok f (ok b) h = cc
  wrap-eq-ok f (err e) h = cc

pub Result-cases {ℓ κ} :
    {E : Type ℓ} {A : Type κ} (m : Result E A) → ((a : A) × (m ≡ ok a)) ⊎ ((e : E) × (m ≡ err e))
Result-cases (ok a) = inl (a, refl)
Result-cases (err e) = inr (e, refl)
