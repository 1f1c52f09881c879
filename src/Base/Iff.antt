-- ===== src/Base/Iff.antt =====
-- Equivalences of statements, and of statements on all items of a list.
use mathlib.Core.Logic.{◌↔◌}
use mathlib.Core.Option.{Option, none, some}
use mathlib.Core.List.{List, [], ◌∷◌}
use judgekit.Base.Lists.{All, AllSome}

infixl 5 ◌⇔◌
pub ◌⇔◌ {ℓ κ μ} : {A : Type ℓ} {B : Type κ} {C : Type μ} → A ↔ B → B ↔ C → A ↔ C
p ⇔ q = (λ a. q.0 (p.0 a), λ c. p.1 (q.1 c))

pub both {ℓ κ μ ν} :
    {A : Type ℓ} {B : Type κ} {C : Type μ} {D : Type ν} → A ↔ B → C ↔ D → (A × C) ↔ (B × D)
both p q = (λ (a, c). (p.0 a, q.0 c), λ (b, d). (p.1 b, q.1 d))

pub with_unit {ℓ} : {A : Type ℓ} → (A × Unit {0}) ↔ A
with_unit = (λ h. h.0, λ a. (a, tt))

module _ {ℓ κ μ} {A : Type ℓ} {P : A → Type κ} {Q : A → Type μ} (each : (x : A) → P x ↔ Q x) where
  pub All-iff : (xs : List A) → All P xs ↔ All Q xs
  All-iff [] = (λ _. tt, λ _. tt)
  All-iff (x ∷ xs) = both (each x) (All-iff xs)

  pub AllSome-iff : (o : Option A) → AllSome P o ↔ AllSome Q o
  AllSome-iff none = (λ _. tt, λ _. tt)
  AllSome-iff (some x) = each x
