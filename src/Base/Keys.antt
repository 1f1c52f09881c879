-- ===== src/Base/Keys.antt =====
-- A `map[string]struct{}` that a loop fills is the list of its keys, and `has` is its membership
-- test. `scan` is the loop of the validators: check an item, refuse a repeated key, record the key,
-- check once more.
use mathlib.Core.Path.{◌≡◌, refl}
use mathlib.Core.HLevel.{⊥_prop, ¬_prop}
use mathlib.Core.Logic.{◌↔◌, inl, inr}
use mathlib.Core.Logic.Or
use mathlib.Core.Bool.{Bool, true, false, ◌||◌}
use mathlib.Core.List.{
  List, [], ◌∷◌, map, Mem, Nodup, Nodup-cons, Nodup-nil, mem-cons, not-mem-nil, mem-cons_self,
  mem-cons_of_mem,
}
use native.Mathlib.Omega.{arith}
use judgekit.Base.Tests.{Bool-cases}
use judgekit.Base.Lists.{All}
use judgekit.Base.Results.{Result, ok, ◌>>◌, refuse, Passes, >>_iff, refuse_iff}
use judgekit.Base.Text.{Bytes, ◌==◌, ==_iff}

abbrev pub Keys : Type 0
Keys = List Bytes

-- `_, ok := keys[k]`
unfoldable pub has : Bytes → Keys → Bool
unfolding ◌==◌
has k [] = false
has k (j ∷ ks) = j == k || has k ks

pub has→Mem : (k : Bytes) (ks : Keys) → has k ks ≡ true → Mem k ks
unfolding has
has→Mem k [] h = cc
has→Mem k (j ∷ ks) h = elim (Bool-cases (j == k)) [
  | inl e ↦ mem-cons.1 (Or.inl (ground (arith, ==_iff j k)))
  | inr e ↦ mem-cons_of_mem j (has→Mem k ks (ground arith))
]

has-false→not-Mem : (k : Bytes) (ks : Keys) → has k ks ≡ false → ¬ Mem k ks
unfolding has
has-false→not-Mem k [] h m = not-mem-nil m
has-false→not-Mem k (j ∷ ks) h m =
    Or.elim ⊥_prop (mem-cons.0 m) (λ e. ground (arith, ==_iff j k))
      (has-false→not-Mem k ks (ground arith))

pub has_iff : (k : Bytes) (ks : Keys) → (has k ks ≡ true) ↔ Mem k ks
has_iff k ks = (
  has→Mem k ks,
  λ m. elim (Bool-cases (has k ks)) [ inl e ↦ e | inr e ↦ absurd (has-false→not-Mem k ks e m) ],
)

pub not-has_iff : (k : Bytes) (ks : Keys) → (has k ks ≡ false) ↔ (¬ Mem k ks)
not-has_iff k ks = (
  has-false→not-Mem k ks,
  λ n. elim (Bool-cases (has k ks)) [ inl e ↦ absurd (n (has→Mem k ks e)) | inr e ↦ e ],
)

-- No key of `ks` occurs twice, nor in `seen`.
abbrev Fresh : Keys → Keys → Type 0
Fresh seen [] = Unit
Fresh seen (k ∷ ks) = (has k seen ≡ false) × Fresh (k ∷ seen) ks

-- No key occurs twice.
abbrev pub Distinct : Keys → Type 0
Distinct [] = Unit
Distinct (k ∷ ks) = (has k ks ≡ false) × Distinct ks

pub Nodup→Distinct : (ks : Keys) → Nodup ks → Distinct ks
Nodup→Distinct [] d = tt
Nodup→Distinct (k ∷ ks) d =
    let (new, rest) = Nodup-cons.0 d in ((not-has_iff k ks).1 new, Nodup→Distinct ks rest)

Fresh→absent : (seen ks : Keys) → Fresh seen ks → (k : Bytes) → Mem k ks → ¬ Mem k seen
Fresh→absent seen [] f k m = absurd (not-mem-nil m)
Fresh→absent seen (j ∷ ks) f k m =
    Or.elim ¬_prop (mem-cons.0 m) (λ e. rw e ((not-has_iff j seen).0 f.0))
      (λ later s. Fresh→absent (j ∷ seen) ks f.1 k later (mem-cons_of_mem j s))

Fresh→Nodup : (seen ks : Keys) → Fresh seen ks → Nodup ks
Fresh→Nodup seen [] f = Nodup-nil
Fresh→Nodup seen (k ∷ ks) f =
    Nodup-cons.1
      (λ m. Fresh→absent (k ∷ seen) ks f.1 k m mem-cons_self, Fresh→Nodup (k ∷ seen) ks f.1)

Nodup→Fresh : (seen ks : Keys) → Nodup ks → ((k : Bytes) → Mem k ks → ¬ Mem k seen) → Fresh seen ks
Nodup→Fresh seen [] d absent = tt
Nodup→Fresh seen (k ∷ ks) d absent =
    let (new, rest) = Nodup-cons.0 d in
    (
      (not-has_iff k seen).1 (absent k mem-cons_self),
      Nodup→Fresh (k ∷ seen) ks rest λ j m now.
          Or.elim ⊥_prop (mem-cons.0 now) (λ e. new (rw e at m)) (absent j (mem-cons_of_mem k m)),
    )

module _ {ℓ κ} {A : Type ℓ} {E : Type κ} (key : A → Bytes) (before : A → Result E (Unit {0}))
    (repeated : A → E) (after : A → Result E (Unit {0})) where
  unfoldable pub scan_from : Keys → List A → Result E (Unit {0})
  scan_from seen [] = ok tt
  scan_from seen (x ∷ xs) =
      let rest = scan_from (key x ∷ seen) xs in
      do before x; refuse (has (key x) seen) (repeated x); after x; rest

  unfoldable pub scan : List A → Result E (Unit {0})
  unfolding scan_from
  scan = scan_from []

  scan_from_iff :
      (seen : Keys) (xs : List A)
      → Passes (scan_from seen xs)
        ↔ (All (λ x. Passes (before x) × Passes (after x)) xs × Fresh seen (map key xs))
  unfolding scan_from
  scan_from_iff seen [] = (λ _. (tt, tt), λ _. refl)
  scan_from_iff seen (x ∷ xs) =
      let rest = scan_from_iff (key x ∷ seen) xs in
      let (split₁, join₁) = >>_iff (before x) _ in
      let (split₂, join₂) = >>_iff (refuse (has (key x) seen) (repeated x)) _ in
      let (split₃, join₃) = >>_iff (after x) _ in
      let (fresh, unseen) = refuse_iff (has (key x) seen) (repeated x) in
      (
        λ h.
            let (b, h₂) = split₁ h in
            let (r, h₃) = split₂ h₂ in
            let (a, h₄) = split₃ h₃ in
            let (items, keys) = rest.0 h₄ in (((b, a), items), (fresh r, keys)),
        λ (((b, a), items), (f, keys)).
            join₁ (b, join₂ (unseen f, join₃ (a, rest.1 (items, keys)))),
      )

  -- The loop accepts exactly if every item passes both checks and no key is repeated.
  pub scan_iff :
      (xs : List A)
      → Passes (scan xs) ↔ (All (λ x. Passes (before x) × Passes (after x)) xs × Nodup (map key xs))
  unfolding scan
  scan_iff xs =
      let (split, join) = scan_from_iff [] xs in
      (
        λ h. let (items, f) = split h in (items, Fresh→Nodup [] (map key xs) f),
        λ (items, d). join (items, Nodup→Fresh [] (map key xs) d (λ k m. not-mem-nil)),
      )
