-- ===== src/Base/Pigeonhole.antt =====
-- Lists without repetition, measured by native numbers.
use mathlib.Core.List
use mathlib.Core.List.Subperm
use mathlib.Core.List.Nodup
use mathlib.Core.List.{Mem, Subset, Nodup, Perm}
use native.Mathlib.Bridge.{from_ℕ, from_le, from_le⁻¹}
use mathlib.Core.Path.{◌≡◌, refl, ap}
use Prim.Native.Nat.{suc, ◌≤◌}
use mathlib.Core.List.{List as ListOf, [], ◌∷◌}
use native.Mathlib.Omega.{arith}
use judgekit.Base.Lists.{length}

module _ {ℓ} {A : Type ℓ} where
  from_length : (xs : ListOf A) → from_ℕ (List.length xs) ≡ length xs
  from_length [] = refl
  from_length (x ∷ xs) = ap suc (from_length xs)

module _ {ℓ} {A : Type ℓ} (dec : Discrete A) where
  pub length-le_of_subset : {xs ys : ListOf A} → Nodup xs → Subset xs ys → length xs ≤ length ys
  length-le_of_subset {xs} {ys} d s =
      omega (arith, from_length xs, from_length ys, from_le (Subperm.length-le (Nodup.subperm d s)))

  pub perm_of_subset :
      {xs ys : ListOf A} → Nodup xs → Subset xs ys → length ys ≤ length xs → Perm xs ys
  perm_of_subset {xs} {ys} d s h =
      Subperm.perm_of_length_le (Nodup.subperm d s) (
        from_le⁻¹ (List.length ys) (List.length xs) (omega (arith, from_length xs, from_length ys)))
