-- ===== src/Base/Maps.antt =====
-- A Go map is a list of keys with their values, and its order is the order in which a `range` loop
-- visits the entries, which Go leaves open. `find` is `v, ok := m[k]`.
pub mod Members
use mathlib.Core.Path.{◌≡◌, refl, sym, ap}
use mathlib.Core.Option.{Option, none, some}
use mathlib.Core.List.{
  List, [], ◌∷◌, map, Mem, Nodup, Nodup-cons, mem-cons, mem-cons_of_mem, mem-map_of_mem,
  not-mem-nil,
}
use mathlib.Core.HLevel.{⊥_prop}
use mathlib.Core.Logic.Or
use mathlib.Core.Logic.{inl, inr}
use native.Mathlib.Omega.{arith}
use judgekit.Base.Tests.{if◌then◌else◌, Bool-cases, Option-cases}
use judgekit.Base.Text.{Bytes, ◌==◌, ==_iff, ==-refl}
use judgekit.Base.Keys.{Keys}

abbrev pub Map {ℓ} : Type ℓ → Type ℓ
Map V = List (Bytes × V)

module _ {ℓ} {V : Type ℓ} where
  abbrev pub keys : Map V → Keys
  keys m = map (λ (e : Bytes × V). e.0) m

  unfoldable pub find : Bytes → Map V → Option V
  unfolding ◌==◌
  find k [] = none
  find k ((j, v) ∷ m) = let rest = find k m in if j == k then some v else rest

  -- `m[k] = v`: a new key goes to the end.
  unfoldable pub put : Bytes → V → Map V → Map V
  unfolding ◌==◌
  put k v [] = (k, v) ∷ []
  put k v ((j, w) ∷ m) = let rest = put k v m in if j == k then (j, v) ∷ m else (j, w) ∷ rest

  -- `delete(m, k)`
  unfoldable pub delete : Bytes → Map V → Map V
  unfolding ◌==◌
  delete k [] = []
  delete k ((j, w) ∷ m) = let rest = delete k m in if j == k then rest else (j, w) ∷ rest

  pub find-put :
      (k j : Bytes) (v : V) (m : Map V) → find j (put k v m) ≡ (if k == j then some v else find j m)
  unfolding find put
  find-put k j v [] = refl
  find-put k j v ((i, w) ∷ m) = ground (arith, ==_iff k j, ==_iff i k, ==_iff i j, find-put k j v m)

  pub find-delete :
      (k j : Bytes) (m : Map V) → find j (delete k m) ≡ (if k == j then none else find j m)
  unfolding find delete
  find-delete k j [] = ground arith
  find-delete k j ((i, w) ∷ m) =
      ground (arith, ==_iff k j, ==_iff i k, ==_iff i j, find-delete k j m)

  pub find→Mem : (k : Bytes) (m : Map V) {v : V} → find k m ≡ some v → Mem k (keys m)
  unfolding find
  find→Mem k [] e = cc
  find→Mem k ((j, w) ∷ m) {v} e = elim (Bool-cases (j == k)) [
    | inl same ↦ mem-cons.1 (Or.inl (sym ((==_iff j k).0 same)))
    | inr other ↦ mem-cons_of_mem j (find→Mem k m {v = v} (ground arith))
  ]

  find-none→not-Mem : (k : Bytes) (m : Map V) → find k m ≡ none → ¬ Mem k (keys m)
  unfolding find
  find-none→not-Mem k [] e h = not-mem-nil h
  find-none→not-Mem k ((j, w) ∷ m) e h =
      Or.elim ⊥_prop (mem-cons.0 h) (λ eq. ground (arith, ==_iff j k, sym eq))
        (find-none→not-Mem k m (ground arith))

  pub Mem→find : (k : Bytes) (m : Map V) → Mem k (keys m) → (v : V) × (find k m ≡ some v)
  Mem→find k m h = elim (Option-cases (find k m)) [
    | inl missing ↦ absurd (find-none→not-Mem k m missing h)
    | inr found ↦ found
  ]

  -- With distinct keys an entry is what its key finds.
  pub find_entry :
      (k : Bytes) (v : V) (m : Map V) → Nodup (keys m) → Mem (k, v) m → IsSet V → find k m ≡ some v
  unfolding find
  find_entry k v [] d h set = absurd (not-mem-nil h)
  find_entry k v ((j, w) ∷ m) d h set =
      Or.elim (hlevel set) (mem-cons.0 h)
        (λ e.
          ground (arith, ==-refl j, ap (λ (p : Bytes × V). p.0) e, ap (λ (p : Bytes × V). p.1) e))
        (λ later. ground (
          arith,
          find_entry k v m (Nodup-cons.0 d).1 later set,
          ==_iff j k,
          (λ (e : j ≡ k).
              (Nodup-cons.0 d).0 (rw e (mem-map_of_mem (λ (p : Bytes × V). p.0) later))),
        ))
