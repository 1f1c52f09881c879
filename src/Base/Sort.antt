-- ===== src/Base/Sort.antt =====
-- `sort.Strings` and `sort.Slice` on names: byte-wise lexicographic order. Equal keys keep their
-- order here; the program sorts by distinct keys, or texts that are equal as a whole.
use mathlib.Core.List.Perm
use mathlib.Core.List.{List, [], ◌∷◌, map, Perm}
use judgekit.Base.Keys.{has, Distinct}
use judgekit.Base.Maps.{Map, find}
use judgekit.Base.Lists.{length}
use mathlib.Core.Bool.{◌||◌}
use judgekit.Base.Text.{==_iff}
use Prim.Native.Nat.{suc, compare, Ordering}
use mathlib.Core.Path.{◌≡◌, refl, ◌∙◌}
use mathlib.Core.Bool.{Bool, true, false}
use mathlib.Core.Logic.{inl, inr}
use native.Mathlib.Omega.{arith}
use judgekit.Base.Tests.{if◌then◌else◌, Bool-cases}
use judgekit.Base.Text.{Bytes, ◌==◌}
use judgekit.Base.Keys.{Keys}

unfoldable pub lt_text : Bytes → Bytes → Bool
lt_text s [] = false
lt_text [] (b ∷ t) = true
lt_text (a ∷ s) (b ∷ t) =
    let rest = lt_text s t in
    elim (compare a b) [ Ordering.lt ↦ true | Ordering.eq ↦ rest | Ordering.gt ↦ false ]

module _ {ℓ} {A : Type ℓ} (key : A → Bytes) where
  unfoldable pub insert_on : A → List A → List A
  unfolding lt_text
  insert_on x [] = x ∷ []
  insert_on x (y ∷ ys) =
      let rest = insert_on x ys in if lt_text (key y) (key x) then y ∷ rest else x ∷ y ∷ ys

  unfoldable pub sort_on : List A → List A
  unfolding insert_on
  sort_on [] = []
  sort_on (x ∷ xs) = insert_on x (sort_on xs)

  insert_on-perm : (x : A) (ys : List A) → Perm (insert_on x ys) (x ∷ ys)
  unfolding insert_on
  insert_on-perm x [] = Perm.refl (x ∷ [])
  insert_on-perm x (y ∷ ys) = elim (Bool-cases (lt_text (key y) (key x))) [
    | inl e ↦ rw e (Perm.trans (Perm.cons y (insert_on-perm x ys)) (Perm.swap x y ys))
    | inr e ↦ rw e (Perm.refl (x ∷ y ∷ ys))
  ]

  pub sort_on-perm : (xs : List A) → Perm (sort_on xs) xs
  unfolding sort_on
  sort_on-perm [] = Perm.refl []
  sort_on-perm (x ∷ xs) = Perm.trans (insert_on-perm x (sort_on xs)) (Perm.cons x (sort_on-perm xs))

module _ {ℓ} {A : Type ℓ} (key : A → Bytes) where
  has-insert_on :
      (k : Bytes) (x : A) (ys : List A)
      → has k (map key (insert_on key x ys)) ≡ (key x == k || has k (map key ys))
  unfolding insert_on has
  has-insert_on k x [] = refl
  has-insert_on k x (y ∷ ys) = ground (arith, has-insert_on k x ys)

  pub has-sort_on :
      (k : Bytes) (xs : List A) → has k (map key (sort_on key xs)) ≡ has k (map key xs)
  unfolding sort_on has
  has-sort_on k [] = refl
  has-sort_on k (x ∷ xs) = ground (arith, has-insert_on k x (sort_on key xs), has-sort_on k xs)

  Distinct-insert_on :
      (x : A) (ys : List A)
      → has (key x) (map key ys) ≡ false
      → Distinct (map key ys)
      → Distinct (map key (insert_on key x ys))
  unfolding insert_on has
  Distinct-insert_on x [] h d = (refl, tt)
  Distinct-insert_on x (y ∷ ys) h d = ground (
    arith,
    has-insert_on (key y) x ys,
    Distinct-insert_on x ys,
    ==_iff (key x) (key y),
    ==_iff (key y) (key x),
  )

  pub Distinct-sort_on : (xs : List A) → Distinct (map key xs) → Distinct (map key (sort_on key xs))
  unfolding sort_on
  Distinct-sort_on [] d = tt
  Distinct-sort_on (x ∷ xs) d =
      Distinct-insert_on x (sort_on key xs) (ground (arith, has-sort_on (key x) xs))
        (Distinct-sort_on xs d.1)

  abbrev pub by_key : List A → Map A
  by_key xs = map (λ x. (key x, x)) xs

  find-insert_on :
      (k : Bytes) (x : A) (ys : List A)
      → has (key x) (map key ys) ≡ false
      → find k (by_key (insert_on key x ys)) ≡ find k (by_key (x ∷ ys))
  unfolding insert_on has find
  find-insert_on k x [] h = refl
  find-insert_on k x (y ∷ ys) h =
      ground
        (arith, find-insert_on k x ys, ==_iff (key x) k, ==_iff (key y) k, ==_iff (key y) (key x))

  pub find-sort_on :
      (k : Bytes) (xs : List A)
      → Distinct (map key xs)
      → find k (by_key (sort_on key xs)) ≡ find k (by_key xs)
  unfolding sort_on find
  find-sort_on k [] d = refl
  find-sort_on k (x ∷ xs) d =
      find-insert_on k x (sort_on key xs) (ground (arith, has-sort_on (key x) xs))
      ∙ ground (arith, find-sort_on k xs d.1)

  insert_on-length : (x : A) (ys : List A) → length (insert_on key x ys) ≡ suc (length ys)
  unfolding insert_on
  insert_on-length x [] = refl
  insert_on-length x (y ∷ ys) = ground (arith, insert_on-length x ys)

  pub length-sort_on : (xs : List A) → length (sort_on key xs) ≡ length xs
  unfolding sort_on
  length-sort_on [] = refl
  length-sort_on (x ∷ xs) = ground (arith, insert_on-length x (sort_on key xs), length-sort_on xs)

unfoldable pub sort_texts : Keys → Keys
unfolding sort_on
sort_texts = sort_on (λ k. k)
