-- ===== src/Base/Scan.antt =====
-- The loop `scan` where it checks nothing after it has recorded a key.
use mathlib.Core.Logic.{◌↔◌}
use mathlib.Core.Path.{◌≡◌, refl, ap}
use mathlib.Core.List.{List, [], ◌∷◌, map, Nodup}
use judgekit.Base.Lists.{All}
use judgekit.Base.Iff.{◌⇔◌, both, All-iff}
use judgekit.Base.Results.{Result, ok, Passes}
use judgekit.Base.Text.{Bytes}
use judgekit.Base.Keys.{scan, scan_iff}

pub map_same : (xs : List Bytes) → map (λ s. s) xs ≡ xs
map_same [] = refl
map_same (x ∷ xs) = ap (◌∷◌ x) (map_same xs)

module _ {ℓ κ μ} {A : Type ℓ} {E : Type κ} {P : A → Type μ} (key : A → Bytes)
    (before : A → Result E (Unit {0})) (repeated : A → E)
    (each : (x : A) → Passes (before x) ↔ P x) where
  pub scan_plain_iff :
      (xs : List A)
      → Passes (scan key before repeated (λ _. ok tt) xs) ↔ (All P xs × Nodup (map key xs))
  scan_plain_iff xs =
      scan_iff key before repeated (λ _. ok tt) xs
      ⇔ both (All-iff (λ x. (λ h. (each x).0 h.0, λ p. ((each x).1 p, refl))) xs) (λ h. h, λ h. h)

pub scan_texts_iff {κ μ} :
    {E : Type κ} {P : Bytes → Type μ} (before : Bytes → Result E (Unit {0})) (repeated : Bytes → E)
    → ((x : Bytes) → Passes (before x) ↔ P x)
    → (xs : List Bytes)
    → Passes (scan (λ s. s) before repeated (λ _. ok tt) xs) ↔ (All P xs × Nodup xs)
scan_texts_iff before repeated each xs =
    scan_plain_iff (λ s. s) before repeated each xs
    ⇔ both (λ h. h, λ h. h) (λ d. rw (map_same xs) at d, λ d. rw (map_same xs) d)
