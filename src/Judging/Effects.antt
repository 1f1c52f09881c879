-- ===== src/Judging/Effects.antt =====
-- Code with effects: it takes a state and returns the next one with a result.
use judgekit.Base.{Bool, false, if◌then◌else◌, ◌≡◌, refl, ap, ◌∙◌, Result, ok, err}

abbrev pub Effect : Type 0 → Type 0 → Type 0 → Type 0
Effect S E A = S → Result E A × S

unfoldable pub bind_result : {S E A B : Type 0} → Result E A → (A → Effect S E B) → Effect S E B
bind_result (ok a) f s = f a s
bind_result (err e) f s = (err e, s)

infixl 5 ◌>>=◌ ◌>>◌
abbrev pub ◌>>=◌ : {S E A B : Type 0} → Effect S E A → (A → Effect S E B) → Effect S E B
(m >>= f) s = bind_result (m s).0 f (m s).1

abbrev pub ◌>>◌ : {S E B : Type 0} → Effect S E (Unit {0}) → Effect S E B → Effect S E B
m >> k = m >>= λ _. k

-- A computation without effects.
abbrev pub lift : {S E A : Type 0} → Result E A → Effect S E A
lift r s = (r, s)

abbrev pub wrap_error : {S E F A : Type 0} → (E → F) → Effect S E A → Effect S F A
wrap_error f m s = (elim (m s).0 [ ok a ↦ ok a | err e ↦ err (f e) ], (m s).1)

-- Two steps that succeed have a first step that succeeds.
pub bind_result-eq-ok :
    {S E A B : Type 0}
    → (r : Result E A) (next : A → Effect S E B) (s : S) {out : B}
    → (bind_result r next s).0 ≡ ok out
    → (v : A) × (r ≡ ok v) × ((next v s).0 ≡ ok out)
unfolding bind_result
bind_result-eq-ok (err e) next s passed = cc
bind_result-eq-ok (ok v) next s passed = (v, refl, passed)

-- Next steps that agree go on alike.
pub bind_result-cong :
    {S E A B : Type 0}
    → (r : Result E A) {f g : A → Effect S E B} → ((v : A) (s : S) → f v s ≡ g v s)
    → (s : S) → bind_result r f s ≡ bind_result r g s
unfolding bind_result
bind_result-cong (err e) same s = refl
bind_result-cong (ok v) same s = same v s

-- First steps that agree, with next steps that agree.
pub step-cong :
    {S E A B : Type 0} {p q : Result E A × S} {f g : A → Effect S E B}
    → p ≡ q
    → ((v : A) (s : S) → f v s ≡ g v s)
    → bind_result p.0 f p.1 ≡ bind_result q.0 g q.1
step-cong {p = p} {f = f} {g = g} same next =
    bind_result-cong p.0 next p.1 ∙ ap (λ t. bind_result t.0 g t.1) same

-- What holds of the state before a step and after each way to go on holds in the end.
pub bind_result-state :
    {S E A B : Type 0} (P : S → Type 0) (r : Result E A) (f : A → Effect S E B) (s : S)
    → P s
    → ((v : A) → P (f v s).1)
    → P (bind_result r f s).1
unfolding bind_result
bind_result-state P (ok v) f s before after = after v
bind_result-state P (err e) f s before after = before

-- The step that a test, a success or an error leads to.
pub if_no :
    {S E A : Type 0} (b : Bool) (x y : Effect S E A) (s : S)
    → b ≡ false
    → (if b then x else y) s ≡ y s
if_no b x y s e = rw e refl

pub bind-err :
    {S E A B : Type 0} (m : Effect S E A) (f : A → Effect S E B) (s : S) {e : E} {t : S}
    → m s ≡ (err e, t)
    → (m >>= f) s ≡ (err e, t)
unfolding bind_result
bind-err m f s h = ap (λ p. bind_result p.0 f p.1) h

pub bind-ok :
    {S E A B : Type 0} (m : Effect S E A) (f : A → Effect S E B) (s : S) {v : A} {t : S}
    → m s ≡ (ok v, t)
    → (m >>= f) s ≡ f v t
unfolding bind_result
bind-ok m f s {v} {t} e = ap (λ p. bind_result p.0 f p.1) e
