-- ===== src/Base/Maps/Members.antt =====
-- Which keys a map holds, and how many, after an insertion and a deletion.
use Prim.Native.Nat.{suc, ◌≤◌, ◌<◌}
use mathlib.Core.Path.{◌≡◌, refl}
use mathlib.Core.Bool.{true, false, ◌||◌}
use mathlib.Core.Option.{none, some}
use mathlib.Core.List.{[], ◌∷◌}
use native.Mathlib.Omega.{arith}
use judgekit.Base.Tests.{if◌then◌else◌}
use judgekit.Base.Lists.{length}
use judgekit.Base.Text.{Bytes, ◌==◌, ==_iff}
use judgekit.Base.Keys.{has, Distinct}
use judgekit.Base.Maps.{Map, find, put, delete, keys}

module _ {ℓ} {V : Type ℓ} where
  pub has-find : (k : Bytes) (m : Map V) {v : V} → find k m ≡ some v → has k (keys m) ≡ true
  unfolding find has
  has-find k [] e = cc
  has-find k ((j, w) ∷ m) {v} e = ground (arith, has-find k m {v = v})

  pub has-find-none : (k : Bytes) (m : Map V) → find k m ≡ none → has k (keys m) ≡ false
  unfolding find has
  has-find-none k [] e = refl
  has-find-none k ((j, w) ∷ m) e = ground (arith, has-find-none k m)

  pub has-put :
      (k j : Bytes) (v : V) (m : Map V) → has j (keys (put k v m)) ≡ (k == j || has j (keys m))
  unfolding put has
  has-put k j v [] = refl
  has-put k j v ((i, w) ∷ m) = ground (arith, has-put k j v m, ==_iff i k, ==_iff i j, ==_iff k j)

  pub has-delete :
      (k j : Bytes) (m : Map V)
      → has j (keys (delete k m)) ≡ (if k == j then false else has j (keys m))
  unfolding delete has
  has-delete k j [] = ground arith
  has-delete k j ((i, w) ∷ m) = ground (arith, has-delete k j m, ==_iff i k, ==_iff i j, ==_iff k j)

  pub length-delete-le : (k : Bytes) (m : Map V) → length (delete k m) ≤ length m
  unfolding delete
  length-delete-le k [] = omega arith
  length-delete-le k ((j, w) ∷ m) = ground (arith, length-delete-le k m)

  pub length-delete-lt :
      (k : Bytes) (m : Map V) → has k (keys m) ≡ true → length (delete k m) < length m
  unfolding delete has
  length-delete-lt k [] h = cc
  length-delete-lt k ((j, w) ∷ m) h = ground (arith, length-delete-lt k m, length-delete-le k m)

  pub length-put-le : (k : Bytes) (v : V) (m : Map V) → length (put k v m) ≤ suc (length m)
  unfolding put
  length-put-le k v [] = omega arith
  length-put-le k v ((j, w) ∷ m) = ground (arith, length-put-le k v m)

pub Distinct-put {ℓ} :
    {V : Type ℓ} (k : Bytes) (v : V) (m : Map V) → Distinct (keys m) → Distinct (keys (put k v m))
unfolding put has
Distinct-put k v [] d = (refl, tt)
Distinct-put k v ((j, w) ∷ m) d =
    ground (arith, Distinct-put k v m, has-put k j v m, ==_iff j k, ==_iff k j)
